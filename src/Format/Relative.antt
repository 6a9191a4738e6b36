-- ===== src/Format/Relative.antt =====
-- web/lib/format.ts: `relativeTime`, what the screens show of how long ago a time was.
use signet_platform.Prelude.{
  ℕ, ◌+◌, ◌-◌, ◌*◌, ◌/◌, ◌≤◌, ◌≡◌, ◌⊎◌, Option, none, some, ltb, leb, if◌then◌else◌, arith, refl,
  inl, inr, Bool-cases,
}
use signet_platform.Prelude.Text.{Str}
use signet_platform.Format.{Dates, readable_time, dash}

-- Whether a time is past; what follows is in the order of `Intl.RelativeTimeFormat`.
pub data Side : Type 0 where
  ago from_now : Side

pub data TimeUnit : Type 0 where
  second minute hour day month year : TimeUnit

pub record Relative : Type 0 where
  pub side : Side
  pub count : ℕ
  pub unit : TimeUnit

-- The seconds of a unit
unfoldable pub unit_seconds : TimeUnit → ℕ
unit_seconds second = 1
unit_seconds minute = 60
unit_seconds hour = 3600
unit_seconds day = 86_400
unit_seconds month = 2_592_000
unit_seconds year = 31_536_000

-- `Math.round` of a quotient, of which a half goes up: towards the present for a time that is past.
unfoldable pub rounded : Side → ℕ → ℕ → ℕ
rounded from_now m u = (2 * m + u) / (2 * u)
rounded ago m u = (2 * m + (u - 1)) / (2 * u)

-- The unit for a number of seconds
unfoldable pub unit_for : ℕ → TimeUnit
unit_for abs =
    if ltb abs 60
    then second
    else (if ltb abs 3600
        then minute
        else (if ltb abs 86_400
            then hour
            else (if ltb abs 2_592_000 then day else (if ltb abs 31_536_000 then month else year))))

-- The distance of a time that is so many milliseconds away
unfoldable pub distance : Side → ℕ → Relative
unfolding rounded unit_for unit_seconds
distance side ms =
    let abs = rounded side ms 1000 in
    record {
      side = side;
      count = rounded side abs (unit_seconds (unit_for abs));
      unit = unit_for abs;
    }

unfoldable pub relative_to : ℕ → ℕ → Relative
unfolding distance
relative_to now t = if leb now t then distance from_now (t - now) else distance ago (now - t)

-- `text` is the locale's format.
unfoldable pub relative_time : (Relative → Str) → Dates → ℕ → Option Str → Str
unfolding relative_to
relative_time text dates now iso = elim (readable_time dates iso) [
  | none ↦ dash
  | some t ↦ text (relative_to now t)
]

-- A count in a unit that is off from so many milliseconds by at most half of the unit and half a
-- second.
abbrev pub IsOff : ℕ → TimeUnit → ℕ → Type 0
IsOff count unit ms =
    (2 * ms ≤ 2 * (count * (unit_seconds unit * 1000)) + unit_seconds unit * 1000 + 1000)
    × (2 * (count * (unit_seconds unit * 1000)) ≤ 2 * ms + unit_seconds unit * 1000 + 1000)

-- The counts that a unit is used for
abbrev pub IsUsed : TimeUnit → ℕ → Type 0
IsUsed second count = count ≤ 59
IsUsed minute count = (1 ≤ count) × (count ≤ 60)
IsUsed hour count = (1 ≤ count) × (count ≤ 24)
IsUsed day count = (1 ≤ count) × (count ≤ 30)
IsUsed month count = (1 ≤ count) × (count ≤ 12)
IsUsed year count = 1 ≤ count

in_seconds :
    (side : Side) (ms : ℕ)
    → (2 * ms ≤ 2000 * rounded side ms 1000 + 1000) × (2000 * rounded side ms 1000 ≤ 2 * ms + 1000)
unfolding rounded
in_seconds from_now ms = omega arith
in_seconds ago ms = omega arith

-- The numbers of seconds that a unit is chosen for
abbrev IsFor : TimeUnit → ℕ → Type 0
IsFor second s = s ≤ 59
IsFor minute s = (60 ≤ s) × (s ≤ 3599)
IsFor hour s = (3600 ≤ s) × (s ≤ 86_399)
IsFor day s = (86_400 ≤ s) × (s ≤ 2_591_999)
IsFor month s = (2_592_000 ≤ s) × (s ≤ 31_535_999)
IsFor year s = 31_536_000 ≤ s

unit_for-IsFor : (s : ℕ) → IsFor (unit_for s) s
unfolding unit_for
unit_for-IsFor s = elim (Bool-cases (ltb s 60)) [
  | inl a ↦ rw a (ground arith)
  | inr a ↦ elim (Bool-cases (ltb s 3600)) [
    | inl b ↦ rw (a, b) (ground arith)
    | inr b ↦ elim (Bool-cases (ltb s 86_400)) [
      | inl c ↦ rw (a, b, c) (ground arith)
      | inr c ↦ elim (Bool-cases (ltb s 2_592_000)) [
        | inl d ↦ rw (a, b, c, d) (ground arith)
        | inr d ↦ elim (Bool-cases (ltb s 31_536_000)) [
          | inl e ↦ rw (a, b, c, d, e) (ground arith)
          | inr e ↦ rw (a, b, c, d, e) (ground arith)
        ]
      ]
    ]
  ]
]

rounded-IsUsed :
    (unit : TimeUnit) (side : Side) (s : ℕ)
    → IsFor unit s
    → IsUsed unit (rounded side s (unit_seconds unit))
unfolding rounded unit_seconds
rounded-IsUsed second from_now s h = omega arith
rounded-IsUsed second ago s h = omega arith
rounded-IsUsed minute from_now s (h, k) = (omega arith, omega arith)
rounded-IsUsed minute ago s (h, k) = (omega arith, omega arith)
rounded-IsUsed hour from_now s (h, k) = (omega arith, omega arith)
rounded-IsUsed hour ago s (h, k) = (omega arith, omega arith)
rounded-IsUsed day from_now s (h, k) = (omega arith, omega arith)
rounded-IsUsed day ago s (h, k) = (omega arith, omega arith)
rounded-IsUsed month from_now s (h, k) = (omega arith, omega arith)
rounded-IsUsed month ago s (h, k) = (omega arith, omega arith)
rounded-IsUsed year from_now s h = omega arith
rounded-IsUsed year ago s h = omega arith

-- Rounding to seconds and then to the unit
rounded-IsOff :
    (unit : TimeUnit) (side : Side) (ms s : ℕ)
    → (2 * ms ≤ 2000 * s + 1000)
    → (2000 * s ≤ 2 * ms + 1000)
    → IsOff (rounded side s (unit_seconds unit)) unit ms
unfolding rounded unit_seconds
rounded-IsOff second from_now ms s h k = (omega arith, omega arith)
rounded-IsOff second ago ms s h k = (omega arith, omega arith)
rounded-IsOff minute from_now ms s h k = (omega arith, omega arith)
rounded-IsOff minute ago ms s h k = (omega arith, omega arith)
rounded-IsOff hour from_now ms s h k = (omega arith, omega arith)
rounded-IsOff hour ago ms s h k = (omega arith, omega arith)
rounded-IsOff day from_now ms s h k = (omega arith, omega arith)
rounded-IsOff day ago ms s h k = (omega arith, omega arith)
rounded-IsOff month from_now ms s h k = (omega arith, omega arith)
rounded-IsOff month ago ms s h k = (omega arith, omega arith)
rounded-IsOff year from_now ms s h k = (omega arith, omega arith)
rounded-IsOff year ago ms s h k = (omega arith, omega arith)

-- A distance on this side of the present, of about so many milliseconds
pub record IsNear (side : Side) (ms : ℕ) (r : Relative) : Type 0 where
  pub right_side : r.side ≡ side
  pub used : IsUsed r.unit r.count
  pub off : IsOff r.count r.unit ms

distance-IsNear : (side : Side) (ms : ℕ) → IsNear side ms (distance side ms)
unfolding distance
distance-IsNear side ms =
    let s = rounded side ms 1000 in
    let (h, k) = in_seconds side ms in
    record {
      right_side = refl;
      used = rounded-IsUsed (unit_for s) side s (unit_for-IsFor s);
      off = rounded-IsOff (unit_for s) side ms s h k;
    }

-- The time that a screen shows is on the right side of the present; it is off from the true distance
-- by at most half of its unit and half a second; it is shown in seconds below 60, and otherwise as at
-- least 1 and at most 60 minutes, 24 hours, 30 days or 12 months, or as years.
pub relative_to-IsNear :
    (now t : ℕ)
    → ((now ≤ t) × IsNear from_now (t - now) (relative_to now t))
      ⊎ ((t ≤ now) × IsNear ago (now - t) (relative_to now t))
unfolding relative_to
relative_to-IsNear now t = elim (Bool-cases (leb now t)) [
  | inl later ↦ inl (ground arith, rw (later, relative_to) (distance-IsNear from_now (t - now)))
  | inr earlier ↦ inr (ground arith, rw (earlier, relative_to) (distance-IsNear ago (now - t)))
]
