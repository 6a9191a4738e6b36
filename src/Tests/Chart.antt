-- ===== src/Tests/Chart.antt =====
-- Tests of the chart.
use signet_platform.Prelude.{ℕ, ◌*◌, ◌^◌, ◌≤◌, ◌<◌, ◌≡◌, refl, List, [], ◌∷◌, All}
use signet_platform.Prelude.Text.{codes}
use signet_platform.Chart.{Series, axis_max, peak, labelled}
use signet_platform.Chart.Axis.{axis_max-IsRound}

abbrev activity : List Series
activity = record { label = codes "Signatures"; values = 12 ∷ 340 ∷ 7 ∷ [] } ∷ []

axis_max-IsRound_example :
    All (λ (s : Series). All (λ v. v ≤ axis_max activity) s.values) activity
    × (axis_max activity < 2 * peak activity)
    × (d k : ℕ) × (axis_max activity ≡ d * 10 ^ k)
    × (1 ≤ d)
    × (d ≤ 10)
axis_max-IsRound_example = axis_max-IsRound activity

top : axis_max activity ≡ 400
unfolding axis_max
top = refl

-- Of thirty days every fifth is labelled, and the last one.
month : labelled 30 ≡ 29 ∷ 25 ∷ 20 ∷ 15 ∷ 10 ∷ 5 ∷ 0 ∷ []
unfolding labelled
month = refl
