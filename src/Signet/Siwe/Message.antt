-- ===== src/Signet/Siwe/Message.antt =====
-- web/lib/signet.ts: what a signature on the ERC-4361 message commits to.
use mathlib.Core.List.{append_cancel_right}
use signet_platform.Prelude.{
  ℕ, ◌≡◌, refl, sym, ap, ◌∙◌, ◌≢◌, Bool, true, false, List, [], ◌∷◌, ◌++◌, arith, ◌==◌, All,
}
use signet_platform.Prelude.Text.{Str, codes}
use signet_platform.Prelude.Decimal.{to_decimal_injective}
use signet_platform.Signet.Siwe.{SiweOptions, siwe_lines, join_lines, build_siwe_message}

-- A text without a line feed.
abbrev pub IsLine : Str → Type 0
IsLine = All (λ c. c ≢ 10)

abbrev grow : ℕ → Bool → List Str → List Str
grow c true ls = [] ∷ ls
grow c false [] = (c ∷ []) ∷ []
grow c false (l ∷ ls) = (c ∷ l) ∷ ls

-- The text cut at its line feeds.
split_lines : Str → List Str
split_lines [] = [] ∷ []
split_lines (c ∷ s) = grow c (c == 10) (split_lines s)

split_lines-line : (l : Str) → IsLine l → split_lines l ≡ l ∷ []
unfolding split_lines
split_lines-line [] h = refl
split_lines-line (c ∷ l) (p, h) = rw (split_lines-line l h) (ground arith)

split_lines-append : (l s : Str) → IsLine l → split_lines (l ++ (10 ∷ s)) ≡ l ∷ split_lines s
unfolding split_lines
split_lines-append [] s h = refl
split_lines-append (c ∷ l) s (p, h) = rw (split_lines-append l s h) (ground arith)

split_lines-join_lines :
    (l : Str) (ls : List Str)
    → IsLine l
    → All IsLine ls
    → split_lines (join_lines (l ∷ ls)) ≡ l ∷ ls
unfolding join_lines
split_lines-join_lines l [] h hs = split_lines-line l h
split_lines-join_lines l (m ∷ ls) h (p, hs) =
    split_lines-append l (join_lines (m ∷ ls)) h
    ∙ ap (λ t. l ∷ t) (split_lines-join_lines m ls p hs)

-- Every text that goes into a message stays on its line.
pub record IsSingleLined (o : SiweOptions) (issued_at : Str) : Type 0 where
  pub lines : All IsLine (siwe_lines o issued_at)

lines_of_message :
    (o : SiweOptions) (t : Str)
    → IsSingleLined o t
    → split_lines (build_siwe_message o t) ≡ siwe_lines o t
unfolding build_siwe_message
lines_of_message o t h = split_lines-join_lines _ _ h.lines.0 h.lines.1

-- Two messages, neither of which has a line feed in its domain, address, statement, URI, nonce or
-- time, are the same text only if all of these and the chain are the same. Nothing in the code sees
-- to it that they have none.
pub build_siwe_message_injective :
    (o p : SiweOptions) (t u : Str)
    → IsSingleLined o t
    → IsSingleLined p u
    → build_siwe_message o t ≡ build_siwe_message p u
    → (o ≡ p) × (t ≡ u)
build_siwe_message_injective o p t u h k e =
    same (sym (lines_of_message o t h) ∙ ap split_lines e ∙ lines_of_message p u k)
  where
    same : siwe_lines o t ≡ siwe_lines p u → (o ≡ p) × (t ≡ u)
    same q = ground (
      arith,
      append_cancel_right o.domain p.domain
          (codes " wants you to sign in with your Ethereum account:"),
      to_decimal_injective o.chain_id p.chain_id,
    )
