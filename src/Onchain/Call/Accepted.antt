-- ===== src/Onchain/Call/Accepted.antt =====
-- web/lib/onchain.ts as the pages use it: a group call, and then a request that hands its proof to
-- the platform.
use signet_platform.Prelude.{◌≡◌, ap, sym, ◌∙◌, ◌⊎◌, inl, inr, arith, Option}
use signet_platform.Prelude.Text.{truthy}
use signet_platform.Effects.Failure.{Failure, Result, ok, err}
use signet_platform.Effects.Json.{Json, with_members}
use signet_platform.Effects.World.{World, Exec, ◌>>=◌, ◌>>◌, lift}
use signet_platform.Effects.Laws.{>>=-eq-ok, >>=-eq-err}
use signet_platform.Onchain.Transport.{Transport}
use signet_platform.Onchain.Call.{Console, GroupCall, OnchainProof, submit_group_call}
use signet_platform.Onchain.Call.Proof.{IsProof, submit_group_call-IsProof}

module _ (c : Console) (transport : Transport) (g : GroupCall c)
    (request : Option OnchainProof → Exec Json) where
  -- The group call returned a proof in the tab `w`, and the request, made with this proof in the tab
  -- that it left, was answered with `answer`.
  abbrev pub IsAccepted : Json → World → Type 0
  IsAccepted answer w =
      (proof : Option OnchainProof) × (v u : World) × (submit_group_call c transport g w
        ≡ (ok proof, v))
      × IsProof c (truthy g.group_address) transport g w v proof
      × (request proof v ≡ (ok answer, u))

  -- What returns after the call and the request has had the request accepted, and what comes last has
  -- returned from its answer.
  pub accepted-eq-ok :
      {A : Type 0} (last : Json → Exec A) (w w' : World) (a : A)
      → (submit_group_call c transport g >>= λ proof. request proof >>= last) w ≡ (ok a, w')
      → (answer : Json) × (u : World) × IsAccepted answer w × (last answer u ≡ (ok a, w'))
  accepted-eq-ok last w w' a h =
      let (proof, v, p, q) =
        >>=-eq-ok (submit_group_call c transport g) (λ proof. request proof >>= last) w a w' h in
      let (answer, u, r, s) = >>=-eq-ok (request proof) last v a w' q in
      (answer, u, (proof, v, u, p, submit_group_call-IsProof c transport g w v proof p, r), s)

  -- The call failed with `e`, or the platform refused the request, made with the call's proof, with
  -- `e`.
  abbrev pub IsRefused : Failure → World → Type 0
  IsRefused e w =
      ((v : World) × (submit_group_call c transport g w ≡ (err e, v)))
      ⊎ ((proof : Option OnchainProof) × (v u : World) × (submit_group_call c transport g w
            ≡ (ok proof, v))
          × (request proof v ≡ (err e, u)))

  -- What fails after the call and the request has had one of them refused, or what comes last has
  -- failed on the answer.
  pub accepted-eq-err :
      {A : Type 0} (last : Json → Exec A) (w w' : World) (e : Failure)
      → (submit_group_call c transport g >>= λ proof. request proof >>= last) w ≡ (err e, w')
      → IsRefused e w
        ⊎ ((answer : Json) × (u : World) × IsAccepted answer w × (last answer u ≡ (err e, w')))
  accepted-eq-err last w w' e h =
      elim (>>=-eq-err (submit_group_call c transport g) (λ proof. request proof >>= last) w e w'
        h) [
          | inl p ↦ inl (inl (w', p))
          | inr (proof, v, p, q) ↦ elim (>>=-eq-err (request proof) last v e w' q) [
            | inl r ↦ inl (inr (proof, v, w', p, r))
            | inr (answer, u, r, s) ↦ inr (
              answer,
              u,
              (proof, v, u, p, submit_group_call-IsProof c transport g w v proof p, r),
              s,
            )
          ]
        ]

  -- Refused, or accepted with an answer that could not be read.
  abbrev pub IsFailed : Failure → World → Type 0
  IsFailed e w =
      IsRefused e w ⊎ ((answer : Json) × IsAccepted answer w × (with_members answer ≡ err e))

  -- What comes last fails only at an answer that cannot be read.
  pub accepted-IsFailed :
      {A : Type 0} (last : Json → Exec A) (w w' : World) (e : Failure)
      → ((j : Json) (u : World) → last j u ≡ (err e, w') → with_members j ≡ err e)
      → (submit_group_call c transport g >>= λ proof. request proof >>= last) w ≡ (err e, w')
      → IsFailed e w
  accepted-IsFailed last w w' e read h = elim (accepted-eq-err last w w' e h) [
    | inl r ↦ inl r
    | inr (answer, u, a, s) ↦ inr (answer, a, read answer u s)
  ]

read_ok : (r : Result Json) (v w' : World) (a : Json) → lift r v ≡ (ok a, w') → r ≡ ok a
read_ok r v w' a h = cc h

members_ok : (j a : Json) → with_members j ≡ ok a → j ≡ a
unfolding with_members
members_ok j a h = ground arith

-- An answer whose members could be read is itself given on.
pub lift-with_members : (j a : Json) (u w' : World) → lift (with_members j) u ≡ (ok a, w') → j ≡ a
lift-with_members j a u w' h = members_ok j a (read_ok (with_members j) u w' a h)

-- What could not be read.
pub lift-err :
    (j : Json) (u w' : World) (e : Failure)
    → lift (with_members j) u ≡ (err e, w')
    → with_members j ≡ err e
lift-err j u w' e h = ap (λ (r : Result Json × World). r.0) h

-- Also when something is read again before.
pub reread-with_members :
    (m : Exec (Unit {0})) (j a : Json) (u w' : World)
    → (m >> lift (with_members j)) u ≡ (ok a, w')
    → j ≡ a
reread-with_members m j a u w' h =
    let (done, y, d, t) = >>=-eq-ok m (λ _. lift (with_members j)) u a w' h in
    lift-with_members j a y w' t

pub reread-err :
    (m : Exec (Unit {0})) (j : Json) (u w' : World) (e : Failure)
    → ((x : Unit {0}) × ((m u).0 ≡ ok x))
    → (m >> lift (with_members j)) u ≡ (err e, w')
    → with_members j ≡ err e
reread-err m j u w' e (x, returns) h = elim (>>=-eq-err m (λ _. lift (with_members j)) u e w' h) [
  | inl p ↦ absurd (clash (sym returns ∙ ap (λ (r : Result (Unit {0}) × World). r.0) p))
  | inr (done, y, d, t) ↦ lift-err j y w' e t
]
  where
    clash : ◌≡◌ {A = Result (Unit {0})} (ok x) (err e) → ⊥
    clash q = cc q
