-- ===== src/Policies/Sent.antt =====
-- web/app/(console)/apps/[appId]/configuration/policies/page.tsx: what the editor sends.
use signet_platform.Prelude.{
  ◌≡◌, refl, inl, inr, false, not, ◌&&◌, Option, some, List, [], ◌∷◌, map, All, All-append,
  Bool-cases, Option-cases, arith,
}
use signet_platform.Prelude.Text.{Str, is_empty}
use signet_platform.Prelude.Space.{trim}
use signet_platform.Effects.Json.{Json}
use signet_platform.Api.Query.{Urls}
use signet_platform.Api.Endpoints.{Call}
use signet_platform.Policies.{
  Policy, PolicyKind, Editor, Input, new_policy, create_policy, cancel, edit, types_name,
  types_config, picks, clicks_save, save_accepted, save_refused, mounted, is_new, parsed_config,
  save_call, save, step, steps,
}

-- Other policies in place of those that are edited.
abbrev pub swapped : (Policy → Policy) → Input → Input
swapped f new_policy = new_policy
swapped f create_policy = create_policy
swapped f cancel = cancel
swapped f (edit p) = edit (f p)
swapped f (types_name s) = types_name s
swapped f (types_config s) = types_config s
swapped f (picks k) = picks k
swapped f clicks_save = clicks_save
swapped f save_accepted = save_accepted
swapped f (save_refused x) = save_refused x

-- Two editors that differ at most in the policy that they are handed.
record Alike (d e : Editor) : Type 0 where
  handed : is_new d.editing ≡ is_new e.editing
  name : d.name ≡ e.name
  kind : d.kind ≡ e.kind
  config : d.config ≡ e.config
  pending : d.pending ≡ e.pending
  saves : d.saves ≡ e.saves

module _ (urls : Urls) (app_id : Str) (parse_json : Str → Option Json) where
  -- The request of a policy with a name and with a configuration that some text stands for.
  abbrev pub IsSent : Call → Type 0
  IsSent c =
      (name text : Str) × (kind : PolicyKind) × (config : Json) × (is_empty (trim name) ≡ false)
      × (parsed_config urls app_id parse_json text ≡ some config)
      × (c ≡ save_call urls app_id parse_json (trim name) kind config)

  save-IsSent : (e : Editor) → All IsSent e.saves → All IsSent (save urls app_id parse_json e).saves
  unfolding save
  save-IsSent e h = elim (Bool-cases (not e.pending && not (is_empty (trim e.name)))) [
    | inr off ↦ rw (off, save) h
    | inl on ↦ elim (Option-cases (parsed_config urls app_id parse_json e.config)) [
      | inl bad ↦ rw (on, save) (rw (bad, save) h)
      | inr (j, there) ↦
          rw (on, save)
            (rw (there, save)
              (All-append IsSent e.saves _ h
                ((e.name, e.config, e.kind, j, ground arith, there, refl), tt)))
    ]
  ]

  step-IsSent :
      (i : Input) (e : Editor)
      → All IsSent e.saves
      → All IsSent (step urls app_id parse_json i e).saves
  unfolding step
  step-IsSent new_policy e h = h
  step-IsSent create_policy e h = h
  step-IsSent cancel e h = h
  step-IsSent (edit p) e h = h
  step-IsSent (types_name s) e h = ground arith
  step-IsSent (types_config s) e h = h
  step-IsSent (picks k) e h = h
  step-IsSent clicks_save e h = save-IsSent e h
  step-IsSent save_accepted e h = ground arith
  step-IsSent (save_refused x) e h = ground arith

  step-Alike :
      (f : Policy → Policy) (i : Input) (d e : Editor)
      → Alike d e
      → Alike (step urls app_id parse_json (swapped f i) d) (step urls app_id parse_json i e)
  unfolding step save
  step-Alike f new_policy d e h = ground arith
  step-Alike f create_policy d e h = ground arith
  step-Alike f cancel d e h = ground arith
  step-Alike f (edit p) d e h = ground arith
  step-Alike f (types_name s) d e h = ground arith
  step-Alike f (types_config s) d e h = ground arith
  step-Alike f (picks k) d e h = ground arith
  step-Alike f clicks_save d e h = ground arith
  step-Alike f save_accepted d e h = ground arith
  step-Alike f (save_refused x) d e h = ground arith

  steps-IsSent :
      (is : List Input) (e : Editor)
      → All IsSent e.saves
      → All IsSent (steps urls app_id parse_json is e).saves
  unfolding steps
  steps-IsSent [] e h = h
  steps-IsSent (i ∷ is) e h = steps-IsSent is (step urls app_id parse_json i e) (step-IsSent i e h)

  steps-Alike :
      (f : Policy → Policy) (is : List Input) (d e : Editor)
      → Alike d e
      → Alike
          (steps urls app_id parse_json (map (swapped f) is) d)
          (steps urls app_id parse_json is e)
  unfolding steps
  steps-Alike f [] d e h = h
  steps-Alike f (i ∷ is) d e h =
      steps-Alike f is (step urls app_id parse_json (swapped f i) d)
        (step urls app_id parse_json i e) (step-Alike f i d e h)

  mounted-Alike : Alike mounted mounted
  mounted-Alike = record {
    handed = refl;
    name = refl;
    kind = refl;
    config = refl;
    pending = refl;
    saves = refl;
  }

  -- Whatever the developer does on the page, every request that it makes is that of an enabled policy
  -- with a trimmed name that is not empty and with a configuration that is JSON; and the requests do
  -- not depend on which policies were edited, nor on anything that stands in them.
  pub steps-IsTyped :
      (is : List Input) (f : Policy → Policy)
      → All IsSent (steps urls app_id parse_json is mounted).saves
        × ((steps urls app_id parse_json (map (swapped f) is) mounted).saves
            ≡ (steps urls app_id parse_json is mounted).saves)
  steps-IsTyped is f =
      (steps-IsSent is mounted none_yet, (steps-Alike f is mounted mounted mounted-Alike).saves)
    where
      none_yet : All IsSent mounted.saves
      none_yet = unfold mounted in tt
