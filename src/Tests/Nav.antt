-- ===== src/Tests/Nav.antt =====
-- Tests of the navigation.
use signet_platform.Prelude.{◌≡◌, ◌↔◌, refl, true, false}
use signet_platform.Prelude.Text.{codes}
use signet_platform.Nav.{NavItem, is_active}
use signet_platform.Nav.Active.{IsUnder, is_active-IsUnder}

abbrev users : NavItem
users = record { href = codes "/apps/a1/users"; label = codes "Users"; exact = false }

is_active-IsUnder_example :
    (is_active (codes "/apps/a1/users/u7") users ≡ true) ↔ IsUnder (codes "/apps/a1/users/u7") users
is_active-IsUnder_example = is_active-IsUnder (codes "/apps/a1/users/u7") users

below : is_active (codes "/apps/a1/users/u7") users ≡ true
unfolding is_active
below = refl

beside : is_active (codes "/apps/a1/users2") users ≡ false
unfolding is_active
beside = refl
