-- ===== src/Effects/Keeps.antt =====
-- Actions that leave a part of the tab as it is, whatever they come to.
use signet_platform.Prelude.{
  ◌≡◌, refl, sym, ap, ◌∙◌, ◌⊎◌, inl, inr, Bool, true, false, Option, if◌then◌else◌, arith,
}
use signet_platform.Prelude.Text.{Str}
use signet_platform.Effects.Failure.{Failure, Result, ok, err}
use signet_platform.Effects.World.{
  World, Cells, Exec, Slot, continue, ◌>>=◌, recover, try_catch, remove_item,
}

-- The part is what `view` reads of the tab.
module _ {X : Type 0} (view : World → X) where
  abbrev pub Keeps : {A : Type 0} → Exec A → Type 0
  Keeps m = (w : World) → view (m w).1 ≡ view w

  pub Keeps-if :
      {A : Type 0} (b : Bool) (m n : Exec A) → Keeps m → Keeps n → Keeps (if b then m else n)
  Keeps-if true m n h k = h
  Keeps-if false m n h k = k

  Keeps-continue :
      {A B : Type 0} (r : Result A) (f : A → Exec B)
      → ((a : A) → Keeps (f a))
      → Keeps (continue r f)
  Keeps-continue (ok a) f h w = h a w
  Keeps-continue (err e) f h w = refl

  pub Keeps->>= :
      {A B : Type 0} (m : Exec A) (f : A → Exec B)
      → Keeps m
      → ((a : A) → Keeps (f a))
      → Keeps (m >>= f)
  Keeps->>= m f h k w = Keeps-continue (m w).0 f k (m w).1 ∙ h w

  Keeps-recover :
      {A : Type 0} (r : Result A) (h : Exec A)
      → Keeps h
      → (w : World) → view (recover r h w).1 ≡ view w
  Keeps-recover (ok a) h k w = refl
  Keeps-recover (err e) h k w = k w

  pub Keeps-try : {A : Type 0} (m h : Exec A) → Keeps m → Keeps h → Keeps (try_catch m h)
  Keeps-try m h k l w = Keeps-recover (m w).0 h l (m w).1 ∙ k w

  failed_after :
      {A B : Type 0} (r : Result A) (f : A → Exec B) (v w' : World) (e : Failure)
      → continue r f v ≡ (err e, w')
      → (w' ≡ v) ⊎ ((a : A) × (r ≡ ok a) × (f a v ≡ (err e, w')))
  failed_after (ok a) f v w' e x = inr (a, refl, x)
  failed_after {B = B} (err x) f v w' e h = inl (sym (ap (λ (r : Result B × World). r.1) h))

  -- A block that fails has kept the part, or its first action returned and the rest failed.
  pub failed :
      {A B : Type 0} (m : Exec A) (f : A → Exec B) (w w' : World) (e : Failure)
      → Keeps m
      → (m >>= f) w ≡ (err e, w')
      → (view w' ≡ view w)
        ⊎ ((a : A) × (v : World) × (m w ≡ (ok a, v)) × (view v ≡ view w) × (f a v ≡ (err e, w')))
  failed {A} {B} m f w w' e k h = elim (failed_after (m w).0 f (m w).1 w' e h) [
    | inl same ↦ inl (ap view same ∙ k w)
    | inr (a, p, rest) ↦ inr (a, (m w).1, pair p, k w, rest)
  ]
    where
      pair : {a : A} → (m w).0 ≡ ok a → m w ≡ (ok a, (m w).1)
      pair p = λ i. (p i, (m w).1)

abbrev pub cells : World → Cells
cells w = w.cells

abbrev pub token : World → Option Str
token w = w.token

-- Both storages, and whether the second is open.
abbrev pub stored : World → Cells × Option Str × Bool
stored w = (w.cells, w.token, w.token_open)

pub Keeps-remove : (k : Slot) → Keeps token (remove_item k)
Keeps-remove k w = ground arith
