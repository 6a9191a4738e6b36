-- ===== src/Format/Shown.antt =====
-- web/lib/format.ts: what the shortened addresses and the countdowns keep of their values.
use signet_platform.Prelude.{
  ℕ, zero, suc, ◌+◌, ◌-◌, ◌*◌, ◌/◌, ◌≤◌, ◌<◌, ◌≡◌, refl, ap, subst, sym, ◌∙◌, ◌⊎◌, inl, inr, Option,
  none, some, ◌++◌, ◌∷◌, [], length, take, drop, leb, arith, take-append-drop, Bool-cases,
}
use signet_platform.Prelude.Text.{Str, truthy}
use signet_platform.Format.{
  short_address, shortened, ellipsis, Dates, readable_time, Parts, parts_of, parts_text,
  remaining_text, countdown,
}

length-take : (n : ℕ) (s : Str) → n ≤ length s → length (take n s) ≡ n
length-take zero s h = refl
length-take (suc n) [] h = absurd (omega arith)
length-take (suc n) (c ∷ s) h = omega (arith, length-take n s (omega arith))

length-drop : (n : ℕ) (s : Str) → length (drop n s) ≡ length s - n
length-drop zero s = omega arith
length-drop (suc n) [] = omega arith
length-drop (suc n) (c ∷ s) = omega (arith, length-drop n s)

drop-drop : (m n k : ℕ) (s : Str) → k ≡ m + n → drop n (drop m s) ≡ drop k s
drop-drop zero n k s h = ap (λ i. drop i s) (omega arith)
drop-drop (suc m) zero zero s h = absurd (omega arith)
drop-drop (suc m) (suc n) zero s h = absurd (omega arith)
drop-drop (suc m) zero (suc k) [] h = refl
drop-drop (suc m) (suc n) (suc k) [] h = refl
drop-drop (suc m) n (suc k) (c ∷ s) h = drop-drop m n k s (omega arith)

-- The parts are those of a clock, and together they are the time.
abbrev pub IsClock : ℕ → Parts → Type 0
IsClock s p =
    (p.hours < 24)
    × (p.minutes < 60)
    × (p.seconds < 60)
    × (p.days * 86_400 + p.hours * 3600 + p.minutes * 60 + p.seconds ≡ s)

parts_of-IsClock : (s : ℕ) → IsClock s (parts_of s)
unfolding parts_of
parts_of-IsClock s = omega arith

-- What a countdown shows at a moment: nothing exactly if the deadline is missing, cannot be read or
-- has passed, and otherwise the text of the whole seconds that are left, as a clock counts them.
abbrev pub IsCounted : Option ℕ → ℕ → Option Str → Type 0
IsCounted deadline now none = (t : ℕ) → deadline ≡ some t → t ≤ now
IsCounted deadline now (some shown) =
    (t : ℕ) × (p : Parts) × (deadline ≡ some t)
    × (now < t)
    × (shown ≡ parts_text p)
    × IsClock ((t - now) / 1000) p

remaining_text-IsCounted :
    (now : ℕ) (deadline : Option ℕ) → IsCounted deadline now (remaining_text now deadline)
remaining_text-IsCounted now none = λ t e. cc e
remaining_text-IsCounted now (some t) = elim (Bool-cases (leb t now)) [
  | inl over ↦ simp over (λ u e. ground arith)
  | inr left ↦
      simp left (t, parts_of ((t - now) / 1000), refl, ground arith, refl, parts_of-IsClock _)
]

-- A countdown shows nothing exactly if its deadline is missing, cannot be read or has passed, and
-- otherwise the whole seconds that are left, as days, hours, minutes and seconds of a clock.
pub countdown-IsCounted :
    (dates : Dates) (now : ℕ) (iso : Option Str)
    → IsCounted (readable_time dates iso) now (countdown dates now iso)
unfolding countdown
countdown-IsCounted dates now iso = remaining_text-IsCounted now (readable_time dates iso)

-- The shortened text of an address: the address itself if that is short, or else its first and its
-- last characters with an ellipsis in place of those between.
abbrev pub IsShortened : Str → ℕ → ℕ → Str → Type 0
IsShortened a lead tail shown =
    ((shown ≡ a) × (length a ≤ lead + tail + 2))
    ⊎ ((first : Str) × (between : Str) × (last : Str) × (a ≡ first ++ (between ++ last))
        × (shown ≡ first ++ (ellipsis ∷ last))
        × (length first ≡ lead)
        × (length last ≡ tail)
        × (2 < length between))

cut :
    (a : Str) (lead tail : ℕ)
    → lead + tail + 2 < length a
    → (between : Str) × (a ≡ take lead a ++ (between ++ drop (length a - tail) a))
      × (2 < length between)
cut a lead tail h = (take n (drop lead a), whole, many)
  where
    n : ℕ
    n = length a - tail - lead

    whole : a ≡ take lead a ++ (take n (drop lead a) ++ drop (length a - tail) a)
    whole =
        sym (take-append-drop lead a)
        ∙ ap (λ s. take lead a ++ s)
            (sym (take-append-drop n (drop lead a))
              ∙ ap (λ s. take n (drop lead a) ++ s)
                  (drop-drop lead n (length a - tail) a (omega arith)))

    many : 2 < length (take n (drop lead a))
    many = omega (arith, length-take n (drop lead a) (omega (arith, length-drop lead a)))

shortened-IsShortened :
    (a : Str) (lead tail : ℕ) → 0 < tail → IsShortened a lead tail (shortened a lead tail)
shortened-IsShortened a lead tail t = elim (Bool-cases (leb (length a) (lead + tail + 2))) [
  | inl short ↦ inl (simp short, ground arith)
  | inr long ↦
      let (between, whole, many) = cut a lead tail (ground arith) in
      inr (
        take lead a,
        between,
        drop (length a - tail) a,
        whole,
        ground arith,
        length-take lead a (ground arith),
        length-drop (length a - tail) a ∙ ground arith,
        many,
      )
]

-- An address is shown whole if it is short, and else by its first and its last characters, as many
-- as were asked for, with an ellipsis in place of at least three between them.
pub short_address-IsShortened :
    (addr : Option Str) (a : Str) (lead tail : ℕ)
    → truthy addr ≡ some a
    → 0 < tail
    → IsShortened a lead tail (short_address addr lead tail)
unfolding short_address
short_address-IsShortened addr a lead tail h t =
    subst (IsShortened a lead tail) (sym (rw (h, short_address)))
      (shortened-IsShortened a lead tail t)
