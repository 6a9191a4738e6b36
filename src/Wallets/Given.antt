-- ===== src/Wallets/Given.antt =====
-- web/app/(console)/apps/[appId]/wallets/page.tsx: the keys in what was pasted and in what a node
-- answers.
use signet_platform.Prelude.{Bool, true, false, ◌==◌, none, some}
use signet_platform.Prelude.Text.{codes, is_empty}
use signet_platform.Effects.Failure.{Result, ok, err, thrown}
use signet_platform.Effects.Json.{Json, null, num, str, arr, obj, nil, get_field}

-- `Array.isArray(parsed) ? parsed : (parsed.keys ?? [])`
unfoldable pub keys_member : Json → Result Json
unfolding get_field
keys_member null = err (thrown (codes "TypeError"))
keys_member (arr items) = ok (arr items)
keys_member (obj fields) = elim (get_field (codes "keys") fields) [
  | none ↦ ok (arr nil)
  | some j ↦ elim j [ null ↦ ok (arr nil) | other ↦ ok other ]
]
keys_member _ = ok (arr nil)

-- `Array.isArray(result) ? result : []`
unfoldable pub only_array : Json → Json
only_array (arr items) = arr items
only_array _ = arr nil

-- `keys.length === 0`, of any value
unfoldable pub is_none : Json → Bool
unfolding get_field
is_none (arr nil) = true
is_none (str s) = is_empty s
is_none (obj fields) = elim (get_field (codes "length") fields) [
  | none ↦ false
  | some j ↦ elim j [ num n ↦ n == 0 | _ ↦ false ]
]
is_none _ = false
