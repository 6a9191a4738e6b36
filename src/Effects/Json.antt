-- ===== src/Effects/Json.antt =====
-- JSON values: what the console sends as a body and reads from an answer. The conversion from and
-- to text is the host's.
use signet_platform.Prelude.{ℕ, Bool, List, [], ◌∷◌, Option, none, some, if◌then◌else◌}
use signet_platform.Prelude.Text.{Str, codes, ◌===◌}
use signet_platform.Effects.Failure.{Result, ok, err, thrown}

mutual
  pub data Json : Type 0 where
    null : Json
    bool : Bool → Json
    num : ℕ → Json
    str : Str → Json
    arr : Items → Json
    obj : Fields → Json

  pub data Items : Type 0 where
    nil : Items
    cons : Json → Items → Items

  pub data Fields : Type 0 where
    end : Fields
    field : Str → Json → Fields → Fields

abbrev pub items_of : List Str → Items
items_of [] = nil
items_of (s ∷ ss) = cons (str s) (items_of ss)

abbrev pub Object : Type 0
Object = Fields

-- `{ ...fields, key: value }`
unfoldable pub set_field : Str → Json → Fields → Fields
unfolding ◌===◌
set_field k v end = field k v end
set_field k v (field j u rest) =
    let others = set_field k v rest in if j === k then field j v rest else field j u others

unfoldable pub get_field : Str → Fields → Option Json
unfolding ◌===◌
get_field k end = none
get_field k (field j u rest) = if j === k then some u else get_field k rest

-- A member of a value that is read as `{ key?: string }`.
unfoldable pub string_member : Str → Json → Option Str
unfolding get_field
string_member k (obj fs) = elim (get_field k fs) [
  | none ↦ none
  | some j ↦ elim j [ str s ↦ some s | _ ↦ none ]
]
string_member k _ = none

-- Reading any member of null throws.
unfoldable pub with_members : Json → Result Json
with_members null = err (thrown (codes "TypeError"))
with_members j = ok j
