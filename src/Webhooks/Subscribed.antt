-- ===== src/Webhooks/Subscribed.antt =====
-- web/app/(console)/apps/[appId]/settings/webhooks/page.tsx: the events that an endpoint is created
-- for.
use signet_platform.Prelude.{
  ◌≡◌, refl, sym, ap, ◌∙◌, inl, inr, Bool, true, false, not, ◌&&◌, List, [], ◌∷◌, ◌++◌, filter,
  Option, All, All-append, Bool-cases, if◌then◌else◌, arith,
}
use signet_platform.Prelude.Text.{Str, is_empty, ◌===◌, eq_sound, eq_refl}
use signet_platform.Prelude.Space.{trim}
use signet_platform.Api.Query.{Urls}
use signet_platform.Api.Endpoints.{Call}
use signet_platform.Wizard.{includes, toggled}
use signet_platform.Wizard.Bounds.{includes-append, includes-filter, includes-toggled}
use signet_platform.Webhooks.{
  Page, Input, add_endpoint, cancel, types_url, clicks_box, clicks_create, created, refused,
  has_saved, opened, ticked, creation, create, conclude, step, steps,
}

abbrev pub AreDistinct : List Str → Type 0
AreDistinct [] = Unit
AreDistinct (x ∷ xs) = (includes xs x ≡ false) × AreDistinct xs

-- Whether a box was clicked an odd number of times; the last click comes first.
abbrev pub is_odd : Str → List Str → Bool
is_odd e [] = false
is_odd e (b ∷ boxes) = if b === e then not (is_odd e boxes) else is_odd e boxes

-- The events that the boxes show after these clicks.
pub record Mirrors (events boxes : List Str) : Type 0 where
  pub distinct : AreDistinct events
  pub odd_ones : (e : Str) → includes events e ≡ is_odd e boxes

differ_sym : (s t : Str) → s === t ≡ false → t === s ≡ false
differ_sym s t h = elim (Bool-cases (t === s)) [
  | inl e ↦ absurd (clash (sym (eq_refl s) ∙ ap (λ u. s === u) (sym (eq_sound t s e)) ∙ h))
  | inr n ↦ n
]
  where
    clash : true ≡ false → ⊥
    clash x = cc x

AreDistinct-append :
    (e : Str) (xs : List Str) → includes xs e ≡ false → AreDistinct xs → AreDistinct (xs ++ e ∷ [])
unfolding includes
AreDistinct-append e [] h d = (refl, tt)
AreDistinct-append e (x ∷ xs) h (a, d) = (
  includes-append e x xs ∙ simp (a, differ_sym x e (ground arith)) refl,
  AreDistinct-append e xs (ground arith) d,
)

AreDistinct-filter :
    (e : Str) (xs : List Str) → AreDistinct xs → AreDistinct (filter (λ x. not (x === e)) xs)
AreDistinct-filter e [] d = tt
AreDistinct-filter e (x ∷ xs) (a, d) = elim (Bool-cases (x === e)) [
  | inl same ↦ rw same (AreDistinct-filter e xs d)
  | inr other ↦
      rw other (includes-filter e x xs ∙ ap (λ b. b && not (e === x)) a, AreDistinct-filter e xs d)
]

-- A click on a box turns what it shows.
ticked-toggled : (e : Str) (xs : List Str) → ticked (not (includes xs e)) e xs ≡ toggled xs e
unfolding ticked toggled
ticked-toggled e xs = elim (Bool-cases (includes xs e)) [ inl h ↦ rw h refl | inr h ↦ rw h refl ]

AreDistinct-ticked :
    (e : Str) (xs : List Str) → AreDistinct xs → AreDistinct (ticked (not (includes xs e)) e xs)
unfolding ticked
AreDistinct-ticked e xs d = elim (Bool-cases (includes xs e)) [
  | inl h ↦ rw h (AreDistinct-filter e xs d)
  | inr h ↦ rw h (AreDistinct-append e xs h d)
]

Mirrors-ticked :
    (e : Str) (xs boxes : List Str)
    → Mirrors xs boxes
    → Mirrors (ticked (not (includes xs e)) e xs) (e ∷ boxes)
Mirrors-ticked e xs boxes m = record {
  distinct = AreDistinct-ticked e xs m.distinct;
  odd_ones =
      λ x. ap (λ l. includes l x) (ticked-toggled e xs) ∙ (includes-toggled e x xs ∙ turned x);
}
  where
    turned :
        (x : Str) → (if e === x then not (includes xs e) else includes xs x) ≡ is_odd x (e ∷ boxes)
    turned x = elim (Bool-cases (e === x)) [
      | inl same ↦ simp same (ap not (m.odd_ones e ∙ ap (λ y. is_odd y boxes) (eq_sound e x same)))
      | inr other ↦ simp other (m.odd_ones x)
    ]

Mirrors_nothing : Mirrors [] []
unfolding includes
Mirrors_nothing = record { distinct = tt; odd_ones = λ e. refl }

-- The clicks on boxes since the dialog was emptied.
abbrev pub clicked : Input → Page → List Str → List Str
clicked (clicks_box e) p boxes = e ∷ boxes
clicked (created secret) p boxes = if p.pending then [] else boxes
clicked i p boxes = boxes

module _ (urls : Urls) (app_id : Str) where
  abbrev pub boxes_of : List Input → Page → List Str → List Str
  boxes_of [] p boxes = boxes
  boxes_of (i ∷ is) p boxes = boxes_of is (step urls app_id i p) (clicked i p boxes)

  -- The request that creates an endpoint with an address, for the events whose boxes were clicked an
  -- odd number of times.
  abbrev pub IsCreation : Call → Type 0
  IsCreation c =
      (url : Str) × (events boxes : List Str) × (is_empty (trim url) ≡ false)
      × Mirrors events boxes
      × (c ≡ creation urls app_id url events)

  record IsSubscribed (p : Page) (boxes : List Str) : Type 0 where
    made : All IsCreation p.creations
    shown : Mirrors p.selected boxes

  create-IsSubscribed :
      (p : Page) (boxes : List Str)
      → IsSubscribed p boxes
      → IsSubscribed (create urls app_id p) boxes
  unfolding create
  create-IsSubscribed p boxes h = elim (Bool-cases (not p.pending && not (is_empty (trim p.url)))) [
    | inl on ↦
        rw (on, create)
          (record {
            made =
                All-append IsCreation p.creations _ h.made
                  ((p.url, p.selected, boxes, ground arith, h.shown, refl), tt);
            shown = h.shown;
          })
    | inr off ↦ rw (off, create) h
  ]

  concluded :
      (secret : Option Str) (p : Page) (boxes : List Str)
      → IsSubscribed p boxes
      → IsSubscribed (step urls app_id (created secret) p) (clicked (created secret) p boxes)
  unfolding step conclude
  concluded secret p boxes h = elim (Bool-cases p.pending) [
    | inl on ↦ rw on (record { made = h.made; shown = Mirrors_nothing })
    | inr off ↦ simp off h
  ]

  step-IsSubscribed :
      (i : Input) (p : Page) (boxes : List Str)
      → IsSubscribed p boxes
      → IsSubscribed (step urls app_id i p) (clicked i p boxes)
  unfolding step
  step-IsSubscribed add_endpoint p boxes h = record { made = h.made; shown = h.shown }
  step-IsSubscribed cancel p boxes h = record { made = h.made; shown = h.shown }
  step-IsSubscribed (types_url s) p boxes h = record { made = h.made; shown = h.shown }
  step-IsSubscribed (clicks_box e) p boxes h = record {
    made = h.made;
    shown = Mirrors-ticked e p.selected boxes h.shown;
  }
  step-IsSubscribed clicks_create p boxes h = create-IsSubscribed p boxes h
  step-IsSubscribed (created secret) p boxes h = concluded secret p boxes h
  step-IsSubscribed (refused x) p boxes h = elim (Bool-cases p.pending) [
    | inl on ↦ rw on (record { made = h.made; shown = h.shown })
    | inr off ↦ simp off h
  ]
  step-IsSubscribed has_saved p boxes h = record { made = h.made; shown = h.shown }

  run-IsSubscribed :
      (is : List Input) (p : Page) (boxes : List Str)
      → IsSubscribed p boxes
      → IsSubscribed (steps urls app_id is p) (boxes_of is p boxes)
  unfolding steps
  run-IsSubscribed [] p boxes h = h
  run-IsSubscribed (i ∷ is) p boxes h =
      run-IsSubscribed is (step urls app_id i p) (clicked i p boxes) (step-IsSubscribed i p boxes h)

  -- Whatever happens on the page of the webhooks, every request that creates an endpoint has an
  -- address and each of its events once; and the events that the dialog holds are, each once, those
  -- whose boxes were clicked an odd number of times since an endpoint was last created.
  pub steps-IsCreation :
      (is : List Input)
      → All IsCreation (steps urls app_id is opened).creations
        × Mirrors (steps urls app_id is opened).selected (boxes_of is opened [])
  steps-IsCreation is = let run = run-IsSubscribed is opened [] new in (run.made, run.shown)
    where
      new : IsSubscribed opened []
      new = unfold opened in record { made = tt; shown = Mirrors_nothing }
