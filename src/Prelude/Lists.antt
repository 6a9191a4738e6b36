-- ===== src/Prelude/Lists.antt =====
-- Lists measured, cut and searched by native numbers and Boolean tests.
use Prim.Native.Nat.{ℕ, zero, suc, ◌+◌, ◌≤◌}
use mathlib.Core.Path.{◌≡◌, refl, ap, sym}
use mathlib.Core.Logic.{◌↔◌, ◌⊎◌, inl, inr}
use mathlib.Core.Bool.{Bool, true, false, ◌&&◌, ◌||◌}
use mathlib.Core.List.{List, [], ◌∷◌, ◌++◌}
use mathlib.Core.Option.{Option, none, some}
use native.Mathlib.Omega.{arith}
use signet_platform.Prelude.Tests.{if◌then◌else◌, Bool-cases}

module _ {ℓ} {A : Type ℓ} where
  abbrev pub length : List A → ℕ
  length [] = 0
  length (x ∷ xs) = suc (length xs)

  abbrev pub take : ℕ → List A → List A
  take zero xs = []
  take (suc n) [] = []
  take (suc n) (x ∷ xs) = x ∷ take n xs

  abbrev pub drop : ℕ → List A → List A
  drop zero xs = xs
  drop (suc n) [] = []
  drop (suc n) (x ∷ xs) = drop n xs

  abbrev pub replicate : ℕ → A → List A
  replicate zero a = []
  replicate (suc n) a = a ∷ replicate n a

  abbrev pub head? : List A → Option A
  head? [] = none
  head? (x ∷ xs) = some x

  -- The array methods `filter`, `find`, `every` and `some` of the source.
  abbrev pub filter : (A → Bool) → List A → List A
  filter p [] = []
  filter p (x ∷ xs) = let rest = filter p xs in if p x then x ∷ rest else rest

  abbrev pub find : (A → Bool) → List A → Option A
  find p [] = none
  find p (x ∷ xs) = if p x then some x else find p xs

  abbrev pub all : (A → Bool) → List A → Bool
  all p [] = true
  all p (x ∷ xs) = p x && all p xs

  abbrev pub any : (A → Bool) → List A → Bool
  any p [] = false
  any p (x ∷ xs) = p x || any p xs

  pub length-append : (xs ys : List A) → length (xs ++ ys) ≡ length xs + length ys
  length-append [] ys = omega arith
  length-append (x ∷ xs) ys = omega (arith, length-append xs ys)

  pub take-append-drop : (n : ℕ) (xs : List A) → take n xs ++ drop n xs ≡ xs
  take-append-drop zero xs = refl
  take-append-drop (suc n) [] = refl
  take-append-drop (suc n) (x ∷ xs) = ap (λ l. x ∷ l) (take-append-drop n xs)

  pub length-replicate : (n : ℕ) (a : A) → length (replicate n a) ≡ n
  length-replicate zero a = refl
  length-replicate (suc n) a = ap suc (length-replicate n a)

  pub take-append : (n : ℕ) (xs ys : List A) → length xs ≡ n → take n (xs ++ ys) ≡ xs
  take-append zero [] ys h = refl
  take-append zero (x ∷ xs) ys h = absurd (omega arith)
  take-append (suc n) [] ys h = absurd (omega arith)
  take-append (suc n) (x ∷ xs) ys h = ap (λ l. x ∷ l) (take-append n xs ys (omega arith))

  pub drop-append : (n : ℕ) (xs ys : List A) → length xs ≡ n → drop n (xs ++ ys) ≡ ys
  drop-append zero [] ys h = refl
  drop-append zero (x ∷ xs) ys h = absurd (omega arith)
  drop-append (suc n) [] ys h = absurd (omega arith)
  drop-append (suc n) (x ∷ xs) ys h = drop-append n xs ys (omega arith)

  pub take_all : (n : ℕ) (xs : List A) → length xs ≤ n → take n xs ≡ xs
  take_all zero [] h = refl
  take_all zero (x ∷ xs) h = absurd (omega arith)
  take_all (suc n) [] h = refl
  take_all (suc n) (x ∷ xs) h = ap (λ l. x ∷ l) (take_all n xs (omega arith))

module _ {ℓ κ} {A : Type ℓ} (P : A → Type κ) where
  abbrev pub All : List A → Type κ
  All [] = Unit
  All (x ∷ xs) = P x × All xs

  pub All-append : (xs ys : List A) → All xs → All ys → All (xs ++ ys)
  All-append [] ys hx hy = hy
  All-append (x ∷ xs) ys (p, hx) hy = (p, All-append xs ys hx hy)

-- The elements of a list.
module _ {A : Type 0} where
  abbrev pub IsIn : A → List A → Type 0
  IsIn x [] = ⊥
  IsIn x (y ∷ ys) = (x ≡ y) ⊎ IsIn x ys

  pub IsIn-filter :
      (p : A → Bool) (x : A) (xs : List A) → IsIn x (filter p xs) ↔ (IsIn x xs × (p x ≡ true))
  IsIn-filter p x xs = (only xs, λ m. there xs m.0 m.1)
    where
      only : (ys : List A) → IsIn x (filter p ys) → IsIn x ys × (p x ≡ true)
      only [] m = elim m [ ]
      only (y ∷ ys) m = elim (Bool-cases (p y)) [
        | inl taken ↦ elim (simp taken at m) [
          | inl e ↦ (inl e, rw e taken)
          | inr rest ↦ let (k, h) = only ys rest in (inr k, h)
        ]
        | inr left ↦ let (k, h) = only ys (simp left at m) in (inr k, h)
      ]

      there : (ys : List A) → IsIn x ys → p x ≡ true → IsIn x (filter p ys)
      there [] m h = elim m [ ]
      there (y ∷ ys) (inl e) h = rw (sym e) (rw h (inl refl))
      there (y ∷ ys) (inr m) h = elim (Bool-cases (p y)) [
        | inl taken ↦ simp taken (inr (there ys m h))
        | inr left ↦ simp left (there ys m h)
      ]

  pub any_iff :
      (p : A → Bool) (xs : List A) → any p xs ≡ true ↔ ((x : A) × IsIn x xs × (p x ≡ true))
  any_iff p xs = (found xs, λ h. holds xs h.0 h.1 h.2)
    where
      found : (ys : List A) → any p ys ≡ true → (x : A) × IsIn x ys × (p x ≡ true)
      found [] h = absurd (cc h)
      found (y ∷ ys) h = elim (Bool-cases (p y)) [
        | inl here ↦ (y, inl refl, here)
        | inr away ↦ let (x, m, e) = found ys (simp away at h) in (x, inr m, e)
      ]

      holds : (ys : List A) (x : A) → IsIn x ys → p x ≡ true → any p ys ≡ true
      holds [] x m h = elim m [ ]
      holds (y ∷ ys) x (inl e) h = rw (sym e) (rw h refl)
      holds (y ∷ ys) x (inr m) h = elim (Bool-cases (p y)) [
        | inl here ↦ rw here refl
        | inr away ↦ rw away (holds ys x m h)
      ]
