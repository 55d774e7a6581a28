-- ===== src/KeyedMutex/Invariant.antt =====
-- What holds of the registry in every reachable state.
use sitebrush_v.Prelude.{ℕ, ◌≤◌, ◌<◌, ◌≡◌, Bool, true, false, none, some, ◌==◌, if◌then◌else◌}
use sitebrush_v.KeyedMutex.Family.{total}
use sitebrush_v.KeyedMutex.System.{
  Phase, idle, start, lookup, waiting, holding, releasing, dropping, Frame, State,
}

-- The phases in which the goroutine is counted in refs.
abbrev pub has_ref : Phase → Bool
has_ref idle = false
has_ref start = false
has_ref lookup = false
has_ref waiting = true
has_ref holding = true
has_ref releasing = true
has_ref dropping = true

-- The phases in which it has k.mu.
abbrev pub inside : Phase → Bool
inside idle = false
inside start = false
inside lookup = true
inside waiting = false
inside holding = false
inside releasing = false
inside dropping = true

-- 1 if the goroutine is counted at the address.
abbrev pub counts : {K : Type 0} → ℕ → Frame K → ℕ
counts id f = if has_ref f.phase then (if f.lock == id then 1 else 0) else 0

pub record Inv {K : Type 0} (n : ℕ) (s : State K) : Type 0 where
  -- refs is the number of goroutines counted at the address.
  pub counted : (id : ℕ) → s.refs id ≡ total (counts id) n s.frame
  -- A counted goroutine's lock is the one that the map has for its key.
  pub mapped :
      (i : ℕ) → has_ref (s.frame i).phase ≡ true → s.locks (s.frame i).key ≡ some (s.frame i).lock
  pub live : (k : K) (id : ℕ) → s.locks k ≡ some id → 0 < s.refs id
  pub allocated : (k : K) (id : ℕ) → s.locks k ≡ some id → id < s.next
  pub distinct : (k j : K) (id : ℕ) → s.locks k ≡ some id → s.locks j ≡ some id → k ≡ j
  pub unused : (id : ℕ) → s.next ≤ id → s.holder id ≡ none
  pub holds : (i : ℕ) → (s.frame i).phase ≡ holding → s.holder (s.frame i).lock ≡ some i
  pub held :
      (id i : ℕ) → s.holder id ≡ some i → ((s.frame i).phase ≡ holding) × ((s.frame i).lock ≡ id)
  pub entered : (i : ℕ) → inside (s.frame i).phase ≡ true → s.registry ≡ some i
  pub has_registry : (i : ℕ) → s.registry ≡ some i → inside (s.frame i).phase ≡ true
  pub outside : (i : ℕ) → n ≤ i → (s.frame i).phase ≡ idle
