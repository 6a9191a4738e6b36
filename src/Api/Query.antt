-- ===== src/Api/Query.antt =====
-- web/lib/api.ts: the query string of a request. The encoders of the browser are parameters.
use signet_platform.Prelude.{Bool, Option, none, some, List, [], ◌∷◌, ◌++◌, if◌then◌else◌}
use signet_platform.Prelude.Text.{Str, codes, is_empty}

-- `encodeURIComponent`, and `toString` of a `URLSearchParams` with the given entries
pub record Urls : Type 0 where
  pub component : Str → Str
  pub form : List (Str × Str) → Str

-- The value of a parameter: `undefined`, a string or a boolean
pub data Param : Type 0 where
  missing : Param
  text : Str → Param
  flag : Bool → Param

-- `String(v)`, if the value is not `undefined`, "" or `false`
unfoldable pub shown_param : Param → Option Str
shown_param missing = none
shown_param (text s) = if is_empty s then none else some s
shown_param (flag b) = if b then some (codes "true") else none

unfoldable pub kept_params : List (Str × Param) → List (Str × Str)
unfolding shown_param
kept_params [] = []
kept_params ((k, v) ∷ params) =
    let rest = kept_params params in elim (shown_param v) [ none ↦ rest | some s ↦ (k, s) ∷ rest ]

-- `queryString`
unfoldable pub query_string : Urls → List (Str × Param) → Str
unfolding kept_params
query_string urls params =
    let s = urls.form (kept_params params) in if is_empty s then [] else codes "?" ++ s
