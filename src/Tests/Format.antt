-- ===== src/Tests/Format.antt =====
-- Tests of what the screens show.
use signet_platform.Prelude.{ℕ, ◌-◌, ◌≤◌, ◌⊎◌, ◌≡◌, refl, none, some, Option}
use signet_platform.Prelude.Text.{codes}
use signet_platform.Format.{Dates, countdown}
use signet_platform.Format.Relative.{
  ago, from_now, minute, relative_to, unit_for, IsNear, relative_to-IsNear,
}

abbrev pub dates : Dates
dates = record {
  time_of = λ iso. some 100_000_000;
  date_text = λ t. codes "2026";
  date_time_text = λ t. codes "2026, 10:00";
}

-- A day, three hours, and what the text leaves out.
counted : countdown dates 5_000 (some (codes "2026-01-01")) ≡ some (codes "1d 3h")
unfolding countdown signet_platform.Prelude.Decimal.to_decimal
counted = refl

-- A second less than an hour ago is shown as 60 minutes.
an_hour_ago : relative_to 9_599_000 6_000_000 ≡ record { side = ago; count = 60; unit = minute }
unfolding relative_to unit_for
an_hour_ago = refl

relative_to-IsNear_example :
    ((9_599_000 ≤ 6_000_000)
      × IsNear from_now (6_000_000 - 9_599_000) (relative_to 9_599_000 6_000_000))
    ⊎ ((6_000_000 ≤ 9_599_000)
        × IsNear ago (9_599_000 - 6_000_000) (relative_to 9_599_000 6_000_000))
relative_to-IsNear_example = relative_to-IsNear 9_599_000 6_000_000
