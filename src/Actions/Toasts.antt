-- ===== src/Actions/Toasts.antt =====
-- The toasts of the console's pages that make one request, by the platform's answer.
use signet_platform.Prelude.{Bool, false, Option, none, some, if◌then◌else◌}
use signet_platform.Prelude.Text.{Str, codes}
use signet_platform.Effects.Failure.{Result, ok, err, thrown}
use signet_platform.Effects.Json.{Json, null, bool, obj, get_field, string_member}

pub data ToastKind : Type 0 where
  success failure info : ToastKind

pub record Toast : Type 0 where
  pub kind : ToastKind
  pub title : Str
  pub detail : Option Str

-- `toast.success(title)`
abbrev pub succeeds : Str → Json → Result Toast
succeeds title answer = ok (record { kind = success; title = title; detail = none })

-- `toast.info(title, result.note)`
unfoldable pub notes : Str → Json → Result Toast
unfolding string_member
notes title null = err (thrown (codes "TypeError"))
notes title answer =
    ok (record { kind = info; title = title; detail = string_member (codes "note") answer })

-- `result.delivered`
unfoldable pub delivered : Json → Bool
unfolding get_field
delivered (obj fs) = elim (get_field (codes "delivered") fs) [
  | none ↦ false
  | some j ↦ elim j [ bool b ↦ b | _ ↦ false ]
]
delivered _ = false

-- `result.error ?? result.note`
abbrev pub reason : Json → Option Str
reason answer = elim (string_member (codes "error") answer) [
  | none ↦ string_member (codes "note") answer
  | some e ↦ some e
]

-- What the page of the webhooks says of a test.
unfoldable pub tested : Json → Result Toast
unfolding delivered string_member
tested null = err (thrown (codes "TypeError"))
tested answer =
    if delivered answer
    then ok (record {
      kind = success;
      title = codes "Endpoint accepted the test";
      detail = string_member (codes "note") answer;
    })
    else ok (record {
      kind = failure;
      title = codes "Endpoint rejected the test";
      detail = reason answer;
    })
