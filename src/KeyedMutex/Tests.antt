-- ===== src/KeyedMutex/Tests.antt =====
-- Witnesses for the keyed lock: goroutine 0 of two holds the lock of key 5, goroutine 1 waits for it.
use native.Mathlib.Decide.{ℕ_discrete}
use sitebrush_v.Prelude.{ℕ, ◌≡◌, refl, none, some, arith}
use sitebrush_v.KeyedMutex.System.{
  idle, start, lookup, holding, releasing, dropping, State, fresh_mutex, take_ref, drop_ref, go_to,
  pick, call, enter, found, acquire, unlock, reenter, drop, Reach, at_start, after,
}
use sitebrush_v.KeyedMutex.Family.{update}
use sitebrush_v.KeyedMutex.Safety.{CanMove, mutual_exclusion, no_leak, no_deadlock}

abbrev quiet : State ℕ
quiet = fresh_mutex ℕ_discrete (λ i. 0)

abbrev called : State ℕ → ℕ → State ℕ
called s i = record s { frame = update s.frame i (record (s.frame i) { phase = start; key = 5 }) }

abbrev entered : State ℕ → ℕ → State ℕ
entered s i = go_to (record s { registry = some i }) i lookup

abbrev locked : State ℕ → ℕ → State ℕ
locked s i = go_to (record s { holder = update s.holder ((s.frame i).lock) (some i) }) i holding

abbrev taking : State ℕ → ℕ → State ℕ
taking s i = take_ref ℕ_discrete (entered s i) i ((entered s i).locks (((entered s i).frame i).key))

-- Goroutine 0 holds the lock.
abbrev one : State ℕ
one = locked (taking (called quiet 0) 0) 0

one_reached : Reach ℕ_discrete 2 one
unfolding ℕ_discrete
one_reached =
    after
      (after
        (after (after (at_start (λ i. 0)) (pick 0 (omega arith) (call 5 refl)))
          (pick 0 (omega arith) (enter refl refl)))
        (pick 0 (omega arith) (found refl)))
      (pick 0 (omega arith) (acquire refl refl))

mutual_exclusion_example : ◌≡◌ {A = ℕ} 0 0
unfolding ℕ_discrete
mutual_exclusion_example = mutual_exclusion ℕ_discrete one_reached 0 0 refl refl refl

-- Goroutine 0 gave it back.
abbrev released : State ℕ
released = go_to (record one { holder = update one.holder ((one.frame 0).lock) none }) 0 releasing

abbrev back : State ℕ
back = go_to (record released { registry = some 0 }) 0 dropping

back_reached : Reach ℕ_discrete 2 back
unfolding ℕ_discrete
back_reached =
    after (after one_reached (pick 0 (omega arith) (unlock refl)))
      (pick 0 (omega arith) (reenter refl refl))

done_reached : Reach ℕ_discrete 2 (drop_ref ℕ_discrete back 0)
unfolding ℕ_discrete
done_reached = after back_reached (pick 0 (omega arith) (drop refl))

all_idle : (i : ℕ) → ((drop_ref ℕ_discrete back 0).frame i).phase ≡ idle
unfolding ℕ_discrete
all_idle i = ground arith

no_leak_example : (drop_ref ℕ_discrete back 0).locks 5 ≡ none
no_leak_example = no_leak ℕ_discrete done_reached all_idle 5

no_deadlock_example : CanMove ℕ_discrete 2 one
unfolding ℕ_discrete
no_deadlock_example = no_deadlock ℕ_discrete one_reached 0 (λ e. cc)
