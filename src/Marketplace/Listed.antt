-- ===== src/Marketplace/Listed.antt =====
-- web/app/(marketing)/marketplace/page.tsx: what the directory shows, and in which order.
use mathlib.Core.List.{Perm}
use signet_platform.Prelude.{
  ◌≡◌, refl, ◌∙◌, ◌↔◌, Bool, true, false, not, ◌&&◌, Option, none, some, List, filter,
  if◌then◌else◌, arith, ◌==◌,
}
use signet_platform.Prelude.Text.{is_empty}
use signet_platform.Types.Group.{Category, NodeOperator}
use signet_platform.Marketplace.{
  SortKey, Browser, Filters, other_category, is_online, is_open, mentions, matches, operators,
  category_code,
}
use signet_platform.Marketplace.Sorted.{
  IsCollation, IsSorted, sort_operators-IsSorted, sort_operators-perm,
}

every_test :
    (w x y z : Bool)
    → ((if w then false else if x then false else if y then false else if z then false else true)
        ≡ true)
      ↔ ((w ≡ false) × (x ≡ false) × (y ≡ false) × (z ≡ false))
every_test w x y z = ground arith

same_category : (c d : Category) → category_code c == category_code d ≡ true → c ≡ d
unfolding category_code
same_category c d h = ground arith

own_category : (c : Category) → category_code c == category_code c ≡ true
unfolding category_code
own_category c = ground arith

of_category :
    (chosen : Option Category) (o : NodeOperator)
    → (other_category chosen o ≡ false) ↔ ((c : Category) → chosen ≡ some c → o.category ≡ c)
unfolding other_category
of_category none o = (λ h c e. absurd (cc e), λ h. refl)
of_category (some d) o = (
  λ h c e. same_category o.category d (ground arith) ∙ cc e,
  λ h. rw (h d refl) (rw (own_category d) refl),
)

asked_open :
    (asked : Bool) (o : NodeOperator)
    → ((asked && not (is_open o)) ≡ false) ↔ (asked ≡ true → o.is_open ≡ some true)
unfolding is_open
asked_open asked o = ground arith

asked_online :
    (asked : Bool) (o : NodeOperator)
    → ((asked && not (is_online o)) ≡ false) ↔ (asked ≡ true → is_online o ≡ true)
asked_online asked o = ground arith

asked_search : (e m : Bool) → ((not e && not m) ≡ false) ↔ (e ≡ false → m ≡ true)
asked_search e m = ground arith

module _ (b : Browser) where
  -- What the page's choices ask of a node.
  abbrev pub Meets : Filters → NodeOperator → Type 0
  Meets f o =
      ((c : Category) → f.category ≡ some c → o.category ≡ c)
      × (f.open_only ≡ true → o.is_open ≡ some true)
      × (f.online_only ≡ true → is_online o ≡ true)
      × (is_empty f.search ≡ false → mentions b f.search o ≡ true)

  matches_iff : (f : Filters) (o : NodeOperator) → (matches b f o ≡ true) ↔ Meets f o
  unfolding matches
  matches_iff f o = (
    λ h.
        let (p, q, r, s) = (every_test (other_category f.category o) _ _ _).0 h in
        (
          (of_category f.category o).0 p,
          (asked_open f.open_only o).0 q,
          (asked_online f.online_only o).0 r,
          (asked_search (is_empty f.search) (mentions b f.search o)).0 s,
        ),
    λ m. (every_test (other_category f.category o) _ _ _).1 (
      (of_category f.category o).1 m.0,
      (asked_open f.open_only o).1 m.1,
      (asked_online f.online_only o).1 m.2,
      (asked_search (is_empty f.search) (mentions b f.search o)).1 m.3,
    ),
  )

  -- The page lists the nodes of the directory that meet its choices, each as often as the directory
  -- does and no other, in the order that was chosen.
  pub operators-IsListed :
      (c : IsCollation b) (f : Filters) (key : SortKey) (directory : List NodeOperator)
      → Perm (operators b f key (some directory)) (filter (matches b f) directory)
        × ((o : NodeOperator) → (matches b f o ≡ true) ↔ Meets f o)
        × IsSorted b key (operators b f key (some directory))
  unfolding operators
  operators-IsListed c f key directory = (
    sort_operators-perm b key (filter (matches b f) directory),
    matches_iff f,
    sort_operators-IsSorted b c key (filter (matches b f) directory),
  )
