-- ===== src/Issuers/ClientIds.antt =====
-- web/app/(console)/apps/[appId]/configuration/login-methods/page.tsx and
-- web/app/(console)/apps/new/page.tsx: the client IDs of an issuer.
use signet_platform.Prelude.{
  none, some, ◌≡◌, refl, ap, ◌∙◌, inl, inr, false, not, ◌&&◌, ◌==◌, List, [], ◌∷◌, map, filter, All,
  Bool-cases, arith,
}
use signet_platform.Prelude.Text.{Str, is_empty}
use signet_platform.Prelude.Space.{is_space, trim_start, trim_end, trim}
use signet_platform.Issuers.{client_ids}
use signet_platform.Prelude.Commas.{split_commas, comma_list}
use signet_platform.Wizard.Deploy.{Draft, client_ids_of}

-- No character is a comma.
abbrev pub HasNoComma : Str → Type 0
HasNoComma = All (λ c. c == b',' ≡ false)

-- A client ID as the group's contract is to hold it.
abbrev pub IsClientId : Str → Type 0
IsClientId s = (is_empty s ≡ false) × (trim s ≡ s) × HasNoComma s

trim_end_idem : (s : Str) → trim_end (trim_end s) ≡ trim_end s
unfolding trim_end
trim_end_idem [] = refl
trim_end_idem (c ∷ s) = elim (Bool-cases (is_empty (trim_end s) && is_space c)) [
  | inl blank ↦ simp (blank, trim_end)
  | inr kept ↦ simp (kept, trim_end, trim_end_idem s)
]

trim_start-trim_end : (s : Str) → trim_start (trim_end (trim_start s)) ≡ trim_end (trim_start s)
unfolding trim_start trim_end
trim_start-trim_end [] = refl
trim_start-trim_end (c ∷ s) = elim (Bool-cases (is_space c)) [
  | inl space ↦ simp (space, trim_start, trim_start-trim_end s)
  | inr other ↦ rw (other, trim_start) (starts_kept other)
]
  where
    starts_kept : is_space c ≡ false → trim_start (trim_end (c ∷ s)) ≡ trim_end (c ∷ s)
    starts_kept e = ground arith

trim_idem : (s : Str) → trim (trim s) ≡ trim s
unfolding trim
trim_idem s = ap trim_end (trim_start-trim_end s) ∙ trim_end_idem (trim_start s)

-- What holds of all characters of a text holds of all that are left of it.
All-trim_start : (s : Str) → HasNoComma s → HasNoComma (trim_start s)
unfolding trim_start
All-trim_start [] h = h
All-trim_start (c ∷ s) h = elim (Bool-cases (is_space c)) [
  | inl space ↦ rw (space, trim_start) (All-trim_start s h.1)
  | inr other ↦ rw (other, trim_start) h
]

All-trim_end : (s : Str) → HasNoComma s → HasNoComma (trim_end s)
unfolding trim_end
All-trim_end [] h = h
All-trim_end (c ∷ s) h = elim (Bool-cases (is_empty (trim_end s) && is_space c)) [
  | inl blank ↦ rw (blank, trim_end) tt
  | inr kept ↦ rw (kept, trim_end) (h.0, All-trim_end s h.1)
]

pieces : (s : Str) → All HasNoComma (split_commas s)
unfolding split_commas
pieces [] = (tt, tt)
pieces (c ∷ s) = elim (Bool-cases (c == b',')) [
  | inl comma ↦ rw (comma, split_commas) (tt, pieces s)
  | inr other ↦ rw (other, split_commas) (with_head (split_commas s) other (pieces s))
]
  where
    with_head :
        (ps : List Str)
        → c == b',' ≡ false
        → All HasNoComma ps
        → All HasNoComma (elim ps [ [] ↦ (c ∷ []) ∷ [] | q ∷ qs ↦ (c ∷ q) ∷ qs ])
    with_head [] e h = ((e, tt), tt)
    with_head (q ∷ qs) e (h, hs) = ((e, h), hs)

kept_ids :
    (ps : List Str)
    → All HasNoComma ps
    → All IsClientId (filter (λ (s : Str). not (is_empty s)) (map trim ps))
unfolding trim
kept_ids [] h = tt
kept_ids (p ∷ ps) (h, hs) = elim (Bool-cases (is_empty (trim p))) [
  | inl blank ↦ simp blank (kept_ids ps hs)
  | inr kept ↦
      simp kept
        ((refl, trim_idem p, All-trim_end (trim_start p) (All-trim_start p h)), kept_ids ps hs)
]

ids_of_list : (text : Str) → All IsClientId (comma_list text)
unfolding comma_list
ids_of_list text = kept_ids (split_commas text) (pieces text)

-- Whatever the developer types, on the page of the login methods or in the wizard for a new app: no
-- client ID of an issuer is empty, which would match nothing, none has white space at an end, and
-- none holds a comma.
pub client_ids-IsClientId :
    (text : Str) (d : Draft) (issuer : Str)
    → All IsClientId (client_ids text) × All IsClientId (client_ids_of d issuer)
unfolding client_ids client_ids_of
client_ids-IsClientId text d issuer =
    (ids_of_list text, ids_of_list (elim (d.client_ids issuer) [ none ↦ [] | some t ↦ t ]))
