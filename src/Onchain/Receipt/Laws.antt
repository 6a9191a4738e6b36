-- ===== src/Onchain/Receipt/Laws.antt =====
-- web/lib/onchain.ts: `waitForReceipt` ends, and how.
use mathlib.Core.List.{append_assoc, append-nil}
use signet_platform.Prelude.{
  [], ◌++◌, ℕ, zero, suc, ◌+◌, ◌*◌, ◌≤◌, ◌≡◌, ◌≢◌, refl, sym, subst, false, Option, none, some,
  List, arith, ltb, Bool-cases, Option-cases, inl, inr, ◌⊎◌,
}
use signet_platform.Prelude.Text.{Str}
use signet_platform.Effects.Failure.{
  Result, ok, err, Answer, returned, threw, thrown, external, not_confirmed,
}
use signet_platform.Effects.World.{World, Event, sleep}
use signet_platform.Effects.Wallet.{Wallet, Receipt}
use signet_platform.Onchain.Receipt.{
  check_receipt, after, ask, polls, settle, wait_for_mined, patience_ms, poll_ms,
}

-- A trace of calls that goes on from an earlier one.
abbrev pub Since : List Event → List Event → Type 0
Since earlier t = (es : List Event) × (t ≡ earlier ++ es)

Since-append : (earlier t es : List Event) → Since earlier t → Since earlier (t ++ es)
Since-append earlier t es (fs, h) = (fs ++ es, simp (h, append_assoc))

waited_until : (d : ℕ) (w : World) → ltb w.now d ≡ false → d ≤ w.now
waited_until d w h = ground arith

module _ (wallet : Wallet) (hash : Str) where
  ask_later : (w : World) → w.now ≤ (ask wallet hash w).1.now
  unfolding ask
  ask_later w = omega arith

  after_total :
      (r : Result (Option Receipt)) (v : World) (again : Option (Result (Unit {0}) × World))
      → again ≢ none
      → after r v again ≢ none
  unfolding after
  after_total (err e) v again h = λ x. cc x
  after_total (ok (some r)) v again h = λ x. cc x
  after_total (ok none) v again h = h

  -- Rounds of fuel that last past the deadline are enough.
  pub polls_total :
      (fuel deadline : ℕ) (w : World)
      → deadline ≤ w.now + 3_000 * fuel
      → polls wallet hash (suc fuel) deadline w ≢ none
  unfolding polls
  polls_total zero deadline w h = rw (not_before deadline w (omega arith)) (λ x. cc x)
    where
      not_before : (d : ℕ) (v : World) → d ≤ v.now → ltb v.now d ≡ false
      not_before d v p = ground arith
  polls_total (suc fuel) deadline w h = elim (Bool-cases (ltb w.now deadline)) [
    | inl early ↦ rw early (
        after_total (ask wallet hash w).0 (ask wallet hash w).1 _ (
          polls_total fuel deadline (sleep poll_ms (ask wallet hash w).1).1
            (omega (arith, ask_later w))))
    | inr late ↦ rw late (λ x. cc x)
  ]

-- What the wallet answers once the calls `earlier` have been made.
module _ (wallet : Wallet) (hash : Str) (earlier : List Event) where
  -- A receipt that the wallet gave for the hash, with what was made of it.
  abbrev pub HasReceipt : Result (Unit {0}) → Type 0
  HasReceipt out =
      (t : List Event) × (r : Receipt) × Since earlier t
      × (wallet.receipt t hash ≡ returned (some r))
      × (check_receipt r ≡ out)

  -- How a wait until `deadline` may end, in the tab `v`.
  abbrev pub IsWait : ℕ → Result (Unit {0}) → World → Type 0
  IsWait deadline (ok done) v = HasReceipt (ok done)
  IsWait deadline (err e) v =
      ((t : List Event) × (m : Str) × Since earlier t
        × (wallet.receipt t hash ≡ threw m)
        × (e ≡ thrown m))
      ⊎ (HasReceipt (err e) ⊎ ((e ≡ not_confirmed hash) × (deadline ≤ v.now)))

  IsWait-receipt : (d : ℕ) (out : Result (Unit {0})) (v : World) → HasReceipt out → IsWait d out v
  IsWait-receipt d (ok done) v h = h
  IsWait-receipt d (err e) v h = inr (inl h)

  after_waited :
      (d : ℕ) (t : List Event) (a : Answer (Option Receipt)) (v w' : World)
      (again : Option (Result (Unit {0}) × World)) (out : Result (Unit {0}))
      → Since earlier t
      → wallet.receipt t hash ≡ a
      → (again ≡ some (out, w') → IsWait d out w')
      → after (external a) v again ≡ some (out, w')
      → IsWait d out w'
  unfolding after
  after_waited d t (threw m) v w' again out s e ih x =
      let same : err (thrown m) ≡ out = cc x in
      subst (λ o. IsWait d o w') same (inl (t, m, s, e, refl))
  after_waited d t (returned (some r)) v w' again out s e ih x =
      let same : check_receipt r ≡ out = cc x in IsWait-receipt d out w' (t, r, s, e, same)
  after_waited d t (returned none) v w' again out s e ih x = ih x

  polls_waited :
      (fuel d : ℕ) (w w' : World) (out : Result (Unit {0}))
      → Since earlier w.trace
      → polls wallet hash fuel d w ≡ some (out, w')
      → IsWait d out w'
  unfolding polls ask
  polls_waited zero d w w' out s e = cc e
  polls_waited (suc fuel) d w w' out s e = elim (Bool-cases (ltb w.now d)) [
    | inl early ↦
        after_waited d w.trace (wallet.receipt w.trace hash) (ask wallet hash w).1 w'
          (polls wallet hash fuel d (sleep poll_ms (ask wallet hash w).1).1) out s refl
          (polls_waited fuel d (sleep poll_ms (ask wallet hash w).1).1 w' out
            (Since-append earlier _ _ (Since-append earlier w.trace _ s)))
          (simp early at e)
    | inr late ↦ out_of_time late (simp late at e)
  ]
    where
      out_of_time :
          ltb w.now d ≡ false
          → ◌≡◌ {A = Option (Result (Unit {0}) × World)}
              (some (err (not_confirmed hash), w))
              (some (out, w'))
          → IsWait d out w'
      out_of_time late x =
          let same : err (not_confirmed hash) ≡ out = cc x in
          let here : w ≡ w' = cc x in
          subst (λ o. IsWait d o w') same
            (inr (inr (refl, subst (λ u. d ≤ u.now) here (waited_until d w late))))

  settle_waited :
      (d : ℕ) (w : World) (out : Result (Unit {0})) (v : World)
      → IsWait d out v
      → IsWait d (settle wallet hash w (some (out, v))).0 (settle wallet hash w (some (out, v))).1
  unfolding settle
  settle_waited d w out v h = h

module _ (wallet : Wallet) (hash : Str) where
  -- A wait always ends within its 101 rounds: it returns only for a receipt of the hash, given after
  -- the wait began, that has not reverted, and it gives up on a transaction only after five minutes;
  -- any other error is one of the wallet or of a receipt.
  pub wait_for_mined-IsWait :
      (w : World)
      → IsWait wallet hash w.trace
          (w.now + patience_ms)
          (wait_for_mined wallet hash w).0
          (wait_for_mined wallet hash w).1
  unfolding wait_for_mined
  wait_for_mined-IsWait w = elim (Option-cases (polls wallet hash 101 (w.now + patience_ms) w)) [
    | inl out_of_fuel ↦
        absurd (polls_total wallet hash 100 (w.now + patience_ms) w (omega arith) out_of_fuel)
    | inr ((out, v), e) ↦ settled out v e
  ]
    where
      unfolded : Option (Result (Unit {0}) × World) → Type 0
      unfolded o =
          IsWait wallet hash w.trace (w.now + patience_ms) (settle wallet hash w o).0
            (settle wallet hash w o).1

      settled :
          (out : Result (Unit {0})) (v : World)
          → polls wallet hash 101 (w.now + patience_ms) w ≡ some (out, v)
          → unfolded (polls wallet hash 101 (w.now + patience_ms) w)
      settled out v e = subst unfolded (sym e) (
          settle_waited wallet hash w.trace (w.now + patience_ms) w out v (
            polls_waited wallet hash w.trace 101 (w.now + patience_ms) w v out
              ([], sym (append-nil w.trace)) e))
