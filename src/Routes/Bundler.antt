-- ===== src/Routes/Bundler.antt =====
-- web/app/api/bundler/route.ts: the proxy to the bundler.
use signet_platform.Prelude.{
  ℕ, ◌≡◌, refl, ap, ◌⊎◌, inl, inr, false, Option, none, some, List, [], ◌∷◌, ◌++◌, ◌==◌,
  if◌then◌else◌,
}
use signet_platform.Prelude.Text.{Str, codes, truthy}
use signet_platform.Effects.Failure.{Answer, returned, threw}
use signet_platform.Effects.Host.{Response}

-- A request to the bundler, whose body is the text that the browser sent.
pub record BundlerCall : Type 0 where
  pub url : Str
  pub headers : List (Str × Str)
  pub body : Str

-- `process.env`, and the bundler, which answers or throws
pub record Server : Type 0 where
  pub bundler_url : Option Str
  pub api_key : Option Str
  pub bundler : BundlerCall → Answer Response

-- A reply, by its status: it carries a text on, or an error that is made here, as a message or as
-- an error of JSON-RPC with its code, a number below zero, and its message.
pub data Reply : Type 0 where
  passed : ℕ → Str → Reply
  refused : ℕ → Str → Reply
  rpc_error : ℕ → ℕ → Str → Reply

-- `url.replace(/\/$/, "")`
unfoldable pub strip_slash : Str → Str
strip_slash [] = []
strip_slash (c ∷ []) = if c == 47 then [] else c ∷ []
strip_slash (c ∷ d ∷ s) = c ∷ strip_slash (d ∷ s)

unfoldable pub bundler_headers : Option Str → List (Str × Str)
bundler_headers key =
    (codes "Content-Type", codes "application/json")
    ∷ elim (truthy key) [ none ↦ [] | some k ↦ (codes "X-API-Key", k) ∷ [] ]

-- `path` is the header `x-bundler-path`.
unfoldable pub bundler_call : Server → Str → Option Str → Str → BundlerCall
unfolding strip_slash bundler_headers
bundler_call server url path body = record {
  url = strip_slash url ++ elim path [ none ↦ [] | some p ↦ p ];
  headers = bundler_headers server.api_key;
  body = body;
}

unfoldable pub bundler_reply : Answer Response → Reply
bundler_reply (returned res) = passed res.status res.text
bundler_reply (threw message) = rpc_error 502 32000 message

-- `POST`: what it asks of the bundler, and what it replies.
unfoldable pub proxy : Server → Option Str → Str → List BundlerCall × Reply
unfolding bundler_call bundler_reply
proxy server path body = elim (truthy server.bundler_url) [
  | none ↦ ([], refused 500 (codes "NEXT_PUBLIC_BUNDLER_URL is not set"))
  | some url ↦
      let call = bundler_call server url path body in
      (call ∷ [], bundler_reply (server.bundler call))
]

strip_slash-append : (u : Str) → strip_slash (u ++ 47 ∷ []) ≡ u
unfolding strip_slash
strip_slash-append [] = refl
strip_slash-append (c ∷ []) = refl
strip_slash-append (c ∷ d ∷ s) = ap (λ t. c ∷ t) (strip_slash-append (d ∷ s))

strip_slash-other : (u : Str) (c : ℕ) → c == 47 ≡ false → strip_slash (u ++ c ∷ []) ≡ u ++ c ∷ []
unfolding strip_slash
strip_slash-other [] c h = rw h refl
strip_slash-other (d ∷ []) c h = ap (λ t. d ∷ t) (strip_slash-other [] c h)
strip_slash-other (d ∷ e ∷ s) c h = ap (λ t. d ∷ t) (strip_slash-other (e ∷ s) c h)

truthy-snoc : (u : Str) (c : ℕ) → truthy (some (u ++ c ∷ [])) ≡ some (u ++ c ∷ [])
truthy-snoc [] c = refl
truthy-snoc (d ∷ u) c = refl

base_of :
    (u : Str) (c : ℕ) (url : Str)
    → c == 47 ≡ false
    → (url ≡ u ++ c ∷ []) ⊎ (url ≡ (u ++ c ∷ []) ++ 47 ∷ [])
    → (truthy (some url) ≡ some url) × (strip_slash url ≡ u ++ c ∷ [])
base_of u c url h (inl e) = (rw e (truthy-snoc u c), rw e (strip_slash-other u c h))
base_of u c url h (inr e) =
    (rw e (truthy-snoc (u ++ c ∷ []) 47), rw e (strip_slash-append (u ++ c ∷ [])))

-- The request that the proxy makes for a header, at a base without its last slash.
abbrev pub keyed_call : Str → Str → Option Str → Str → BundlerCall
keyed_call base key path body = record {
  url = base ++ elim path [ none ↦ [] | some p ↦ p ];
  headers = (codes "Content-Type", codes "application/json") ∷ (codes "X-API-Key", key) ∷ [];
  body = body;
}

abbrev pub configured : Server → Str → Server
configured server url = record server { bundler_url = some url }

-- With an address that ends in another character than a slash, or in that one and a slash, and
-- with an API key, the proxy makes one request, whatever path the browser names: to the address with
-- that path right behind it, with the key and the browser's text. It replies what the bundler does,
-- or an error 502 when the bundler throws.
pub proxy-keyed_call :
    (server : Server) (u : Str) (c : ℕ) (key : Str) (path : Option Str) (body : Str) (url : Str)
    → c == 47 ≡ false
    → truthy server.api_key ≡ some key
    → (url ≡ u ++ c ∷ []) ⊎ (url ≡ (u ++ c ∷ []) ++ 47 ∷ [])
    → proxy (configured server url) path body ≡ (
      keyed_call (u ++ c ∷ []) key path body ∷ [],
      bundler_reply (server.bundler (keyed_call (u ++ c ∷ []) key path body)),
    )
unfolding proxy bundler_call bundler_headers
proxy-keyed_call server u c key path body url h k at_url =
    let (there, base) = base_of u c url h at_url in rw (there, base, k)
