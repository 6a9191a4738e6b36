-- ===== src/Effects/Laws.antt =====
-- Laws of the actions: what a caught throw leaves.
use signet_platform.Prelude.Text.{Str}
use signet_platform.Prelude.{
  ◌⊎◌, inl, inr, ◌≡◌, refl, ap, Bool, true, false, Option, none, some, if◌then◌else◌, arith,
}
use signet_platform.Effects.Failure.{
  Failure, Result, ok, err, Answer, returned, threw, external, or_throw,
}
use signet_platform.Effects.World.{
  World, Exec, raise, try_catch, recover, pure, lift, continue, ◌>>=◌,
}

module _ {A : Type 0} where
  recover-pure : (r : Result A) (a : A) (w : World) → (b : A) × ((recover r (pure a) w).0 ≡ ok b)
  recover-pure (ok b) a w = (b, refl)
  recover-pure (err e) a w = (a, refl)

  -- With a handler that returns, the whole returns.
  pub try_catch_total :
      (m : Exec A) (a : A) (w : World) → (b : A) × ((try_catch m (pure a) w).0 ≡ ok b)
  try_catch_total m a w = recover-pure (m w).0 a (m w).1

  recover-some :
      (r : Result (Option A)) (v w' : World) (a : A)
      → recover r (pure none) v ≡ (ok (some a), w')
      → ◌≡◌ {A = Result (Option A) × World} (r, v) (ok (some a), w')
  recover-some (ok b) v w' a e = e
  recover-some (err x) v w' a e = cc

  -- Such a value comes from the action, not from the handler.
  pub try_catch-some :
      (m : Exec (Option A)) (w w' : World) (a : A)
      → try_catch m (pure none) w ≡ (ok (some a), w')
      → m w ≡ (ok (some a), w')
  try_catch-some m w w' a e = recover-some (m w).0 (m w).1 w' a e

-- To split on the answer of a call.
pub Answer-cases {ℓ} :
    {A : Type ℓ} (r : Answer A) → ((m : Str) × (r ≡ threw m)) ⊎ ((a : A) × (r ≡ returned a))
Answer-cases (threw m) = inl (m, refl)
Answer-cases (returned a) = inr (a, refl)

module _ {A B : Type 0} where
  continue-eq-ok :
      (r : Result A) (v : World) (f : A → Exec B) (b : B) (w' : World)
      → continue r f v ≡ (ok b, w')
      → (a : A) × (r ≡ ok a) × (f a v ≡ (ok b, w'))
  continue-eq-ok (ok a) v f b w' e = (a, refl, e)
  continue-eq-ok (err x) v f b w' e = cc e

  -- A block that returns: its first action returned, and so did the rest, from where it left.
  pub >>=-eq-ok :
      (m : Exec A) (f : A → Exec B) (w : World) (b : B) (w' : World)
      → (m >>= f) w ≡ (ok b, w')
      → (a : A) × (v : World) × (m w ≡ (ok a, v)) × (f a v ≡ (ok b, w'))
  >>=-eq-ok m f w b w' e =
      let (a, p, q) = continue-eq-ok (m w).0 (m w).1 f b w' e in (a, (m w).1, pair p, q)
    where
      pair : {a : A} → (m w).0 ≡ ok a → m w ≡ (ok a, (m w).1)
      pair p = λ i. (p i, (m w).1)

module _ {A B : Type 0} where
  continue-eq-err :
      (r : Result A) (v : World) (f : A → Exec B) (e : Failure) (w' : World)
      → continue r f v ≡ (err e, w')
      → ((r ≡ err e) × (v ≡ w')) ⊎ ((a : A) × (r ≡ ok a) × (f a v ≡ (err e, w')))
  continue-eq-err (ok a) v f e w' h = inr (a, refl, h)
  continue-eq-err (err x) v f e w' h = let same : x ≡ e = cc h in inl (ap err same, cc h)

  -- A block that fails: its first action failed, or it returned and the rest failed.
  pub >>=-eq-err :
      (m : Exec A) (f : A → Exec B) (w : World) (e : Failure) (w' : World)
      → (m >>= f) w ≡ (err e, w')
      → (m w ≡ (err e, w')) ⊎ ((a : A) × (v : World) × (m w ≡ (ok a, v)) × (f a v ≡ (err e, w')))
  >>=-eq-err m f w e w' h = elim (continue-eq-err (m w).0 (m w).1 f e w' h) [
    | inl (p, q) ↦ inl (λ i. (p i, q i))
    | inr (a, p, q) ↦ inr (a, (m w).1, (λ i. (p i, (m w).1)), q)
  ]

  continue-cases :
      (r : Result A) (v : World) (f : A → Exec B)
      → ((e : Failure) × (r ≡ err e) × (continue r f v ≡ (err e, v)))
        ⊎ ((a : A) × (r ≡ ok a) × (continue r f v ≡ f a v))
  continue-cases (ok a) v f = inr (a, refl, refl)
  continue-cases (err e) v f = inl (e, refl, refl)

  -- To split on how the first action of a block ends.
  pub >>=-cases :
      (m : Exec A) (f : A → Exec B) (w : World)
      → ((e : Failure) × (v : World) × (m w ≡ (err e, v)) × ((m >>= f) w ≡ (err e, v)))
        ⊎ ((a : A) × (v : World) × (m w ≡ (ok a, v)) × ((m >>= f) w ≡ f a v))
  >>=-cases m f w = elim (continue-cases (m w).0 (m w).1 f) [
    | inl (e, p, q) ↦ inl (e, (m w).1, pair p, q)
    | inr (a, p, q) ↦ inr (a, (m w).1, pair p, q)
  ]
    where
      pair : {r : Result A} → (m w).0 ≡ r → m w ≡ (r, (m w).1)
      pair p = λ i. (p i, (m w).1)

-- A call that is awaited returned what the code outside gave back.
pub external-eq-ok :
    {A : Type 0} (r : Answer A) (w w' : World) (a : A)
    → lift (external r) w ≡ (ok a, w')
    → (r ≡ returned a) × (w' ≡ w)
external-eq-ok (returned b) w w' a e = ground arith
external-eq-ok (threw m) w w' a e = cc e

module _ {A B : Type 0} where
  -- A block that returns and begins with a call, or with a value that may be missing.
  pub returned_first :
      (r : Answer A) (f : A → Exec B) (w : World) (b : B) (w' : World)
      → (lift (external r) >>= f) w ≡ (ok b, w')
      → (a : A) × (r ≡ returned a) × (f a w ≡ (ok b, w'))
  returned_first (returned a) f w b w' e = (a, refl, e)
  returned_first (threw m) f w b w' e = cc e

  pub present_first :
      (x : Failure) (o : Option A) (f : A → Exec B) (w : World) (b : B) (w' : World)
      → (lift (or_throw x o) >>= f) w ≡ (ok b, w')
      → (a : A) × (o ≡ some a) × (f a w ≡ (ok b, w'))
  present_first x (some a) f w b w' e = (a, refl, e)
  present_first x none f w b w' e = cc e

-- A block that returns, whose first part throws under a condition: the condition was false.
pub unless_first :
    {A B : Type 0} (c : Bool) (x : Failure) (a : A) (f : A → Exec B) (w : World) (b : B)
    (w' : World)
    → ((if c then raise x else pure a) >>= f) w ≡ (ok b, w')
    → (c ≡ false) × (f a w ≡ (ok b, w'))
unless_first true x a f w b w' e = cc e
unless_first false x a f w b w' e = (refl, e)

-- A block that only returns.
pub pure-eq-ok : {A : Type 0} (a b : A) (w w' : World) → pure a w ≡ (ok b, w') → (a ≡ b) × (w' ≡ w)
pure-eq-ok a b w w' e = (cc e, cc e)
