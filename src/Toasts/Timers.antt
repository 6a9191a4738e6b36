-- ===== src/Toasts/Timers.antt =====
-- web/providers/ToastProvider.tsx: every toast that is shown goes, by a timer of its own.
use signet_platform.Prelude.{
  ℕ, ◌+◌, ◌<◌, ◌≡◌, refl, sym, subst, ap, ◌∙◌, IsIn, Bool, not, inl, inr, Option, List, [], ◌∷◌,
  ◌++◌, map, filter, All, All-append, ◌==◌, arith, Bool-cases,
}
use signet_platform.Prelude.Text.{Str}
use signet_platform.Toasts.{Toast, ToastKind, Toasts, opened, push, fire, ttl}

-- What happens in some order: toasts are pushed, and the timers of toasts fire.
pub data Reachable : Toasts → Type 0 where
  at_start : (n : ℕ) → Reachable (opened n)
  pushed :
      (k : ToastKind) (m : Str) (d : Option Str) (s : Toasts)
      → Reachable s
      → Reachable (push k m d s)
  fired : (id : ℕ) (s : Toasts) → Reachable s → Reachable (fire id s)

-- The timer that a toast has.
abbrev pub timer_of : Toast → ℕ × ℕ
timer_of t = (t.id, ttl t.kind)

-- The numbers rise strictly, up to below a bound.
abbrev pub RisesTo : ℕ → List ℕ → Type 0
RisesTo b [] = Unit
RisesTo b (n ∷ ns) = (n < b) × All (λ m. n < m) ns × RisesTo b ns

abbrev pub IsTimed : Toasts → Type 0
IsTimed s =
    (map timer_of s.toasts ≡ s.timers) × RisesTo s.next_id (map (λ (t : Toast). t.id) s.toasts)

map-append : {A B : Type 0} (f : A → B) (xs ys : List A) → map f (xs ++ ys) ≡ map f xs ++ map f ys
map-append f [] ys = refl
map-append f (x ∷ xs) ys = ap (λ l. f x ∷ l) (map-append f xs ys)

map-filter :
    {A B : Type 0} (f : A → B) (p : B → Bool) (xs : List A)
    → map f (filter (λ x. p (f x)) xs) ≡ filter p (map f xs)
map-filter f p [] = refl
map-filter f p (x ∷ xs) = elim (Bool-cases (p (f x))) [
  | inl kept ↦ simp kept (ap (λ l. f x ∷ l) (map-filter f p xs))
  | inr gone ↦ simp gone (map-filter f p xs)
]

All-filter :
    {A : Type 0} (P : A → Type 0) (p : A → Bool) (xs : List A) → All P xs → All P (filter p xs)
All-filter P p [] h = tt
All-filter P p (x ∷ xs) (hx, h) = elim (Bool-cases (p x)) [
  | inl kept ↦ simp kept (hx, All-filter P p xs h)
  | inr gone ↦ simp gone (All-filter P p xs h)
]

RisesTo-filter : (b : ℕ) (p : ℕ → Bool) (ns : List ℕ) → RisesTo b ns → RisesTo b (filter p ns)
RisesTo-filter b p [] h = tt
RisesTo-filter b p (n ∷ ns) (l, a, h) = elim (Bool-cases (p n)) [
  | inl kept ↦ simp kept (l, All-filter (λ m. n < m) p ns a, RisesTo-filter b p ns h)
  | inr gone ↦ simp gone (RisesTo-filter b p ns h)
]

RisesTo-snoc : (b : ℕ) (ns : List ℕ) → RisesTo b ns → RisesTo (b + 1) (ns ++ b ∷ [])
RisesTo-snoc b [] h = (omega arith, tt, tt)
RisesTo-snoc b (n ∷ ns) (l, a, h) =
    (omega arith, All-append (λ m. n < m) ns (b ∷ []) a (l, tt), RisesTo-snoc b ns h)

IsTimed-push :
    (k : ToastKind) (m : Str) (d : Option Str) (s : Toasts) → IsTimed s → IsTimed (push k m d s)
unfolding push
IsTimed-push k m d s (timed, rises) = (
  map-append timer_of s.toasts _ ∙ ap (λ l. l ++ (s.next_id, ttl k) ∷ []) timed,
  subst (RisesTo (s.next_id + 1)) (sym (map-append (λ (t : Toast). t.id) s.toasts _))
      (RisesTo-snoc s.next_id (map (λ (t : Toast). t.id) s.toasts) rises),
)

IsTimed-fire : (id : ℕ) (s : Toasts) → IsTimed s → IsTimed (fire id s)
unfolding fire
IsTimed-fire id s (timed, rises) = (
  map-filter timer_of (λ x. not (x.0 == id)) s.toasts ∙ ap (filter (λ x. not (x.0 == id))) timed,
  subst (RisesTo s.next_id) (sym (map-filter (λ (t : Toast). t.id) (λ n. not (n == id)) s.toasts))
      (RisesTo-filter s.next_id (λ n. not (n == id)) (map (λ (t : Toast). t.id) s.toasts) rises),
)

Reachable-IsTimed : (s : Toasts) → Reachable s → IsTimed s
unfolding opened
Reachable-IsTimed s (at_start n) = (refl, tt)
Reachable-IsTimed s (pushed k m d r h) = IsTimed-push k m d r (Reachable-IsTimed r h)
Reachable-IsTimed s (fired id r h) = IsTimed-fire id r (Reachable-IsTimed r h)

-- The timers of some toasts fire, one after the other.
abbrev pub fire_all : List ℕ → Toasts → Toasts
fire_all [] s = s
fire_all (i ∷ is) s = fire_all is (fire i s)

none_left : (ts : List Toast) → All (λ t. IsIn t.id []) ts → ts ≡ []
none_left [] h = refl
none_left (t ∷ ts) (m, h) = elim m [ ]

still-IsIn :
    (i : ℕ) (is : List ℕ) (ts : List Toast)
    → All (λ t. IsIn t.id (i ∷ is)) ts
    → All (λ t. IsIn t.id is) (filter (λ t. not (t.id == i)) ts)
still-IsIn i is [] h = tt
still-IsIn i is (t ∷ ts) (m, h) = elim (Bool-cases (t.id == i)) [
  | inl same ↦ simp same (still-IsIn i is ts h)
  | inr other ↦
      simp other (elim m [ inl e ↦ absurd (ground arith) | inr k ↦ k ], still-IsIn i is ts h)
]

fire_all-none :
    (is : List ℕ) (s : Toasts) → All (λ t. IsIn t.id is) s.toasts → (fire_all is s).toasts ≡ []
unfolding fire
fire_all-none [] s h = none_left s.toasts h
fire_all-none (i ∷ is) s h = fire_all-none is (fire i s) (still-IsIn i is s.toasts h)

timers-IsIn :
    (is : List ℕ) (ts : List Toast)
    → ((x : ℕ × ℕ) → IsIn x (map timer_of ts) → IsIn x.0 is)
    → All (λ t. IsIn t.id is) ts
timers-IsIn is [] h = tt
timers-IsIn is (t ∷ ts) h = (h (timer_of t) (inl refl), timers-IsIn is ts (λ x m. h x (inr m)))

-- However toasts are pushed and timers fire, every toast that is shown has one timer that has not
-- fired, set for the time of its kind, and no two toasts have the same number; and when all of these
-- timers have fired, in any order, no toast is shown.
pub Reachable-toasts_end :
    (s : Toasts)
    → Reachable s
    → IsTimed s
      × ((is : List ℕ)
          → ((x : ℕ × ℕ) → IsIn x s.timers → IsIn x.0 is)
          → (fire_all is s).toasts ≡ [])
Reachable-toasts_end s h =
    let (timed, rises) = Reachable-IsTimed s h in
    (
      (timed, rises),
      λ is all. fire_all-none is s (
          timers-IsIn is s.toasts
            (subst (λ l. (x : ℕ × ℕ) → IsIn x l → IsIn x.0 is) (sym timed) all)),
    )
