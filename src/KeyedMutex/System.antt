-- ===== src/KeyedMutex/System.antt =====
-- One keyedMutex and the goroutines that call lock(key) and later the function it returns. A step
-- is one statement, or the statements that k.mu guards up to its Unlock; a goroutine waits where
-- a sync.Mutex makes it wait.
use mathlib.Core.Logic.{ite}
use native.Mathlib.Decide.{ℕ_discrete}
use sitebrush_v.Prelude.{ℕ, ◌+◌, ◌-◌, ◌<◌, ◌≡◌, Option, none, some}
use sitebrush_v.KeyedMutex.Family.{update}

-- Where a goroutine stands. `start` waits for k.mu in lock, `lookup` holds it; `waiting` waits for
-- lock.mu, `holding` has returned from lock; `releasing` has unlocked lock.mu and waits for k.mu,
-- `dropping` holds it.
pub data Phase : Type 0 where
  idle start lookup waiting holding releasing dropping : Phase

-- A goroutine's frame: its phase and the local variables `key` and `lock`.
pub record Frame (K : Type 0) : Type 0 where
  pub phase : Phase
  pub key : K
  pub lock : ℕ

-- Locks are addressed by numbers; `next` is the first that was never allocated. `refs` and `holder`
-- are the fields of the keyedLock at an address (holder: who has its mu), `locks` is the map, and
-- `registry` says who has k.mu.
pub record State (K : Type 0) : Type 0 where
  pub locks : K → Option ℕ
  pub refs : ℕ → ℕ
  pub holder : ℕ → Option ℕ
  pub next : ℕ
  pub registry : Option ℕ
  pub frame : ℕ → Frame K

abbrev pub go_to : {K : Type 0} → State K → ℕ → Phase → State K
go_to s i p = record s { frame = update s.frame i (record (s.frame i) { phase = p }) }

module _ {K : Type 0} (same : Discrete K) where
  -- k.locks[key] = lock, or delete(k.locks, key)
  abbrev pub assign : (K → Option ℕ) → K → Option ℕ → K → Option ℕ
  assign locks key v k = ite (same key k) v (locks k)

  -- The statements from `lock := k.locks[key]` to k.mu.Unlock().
  abbrev pub take_ref : State K → ℕ → Option ℕ → State K
  take_ref s i none = record s {
    locks = assign s.locks ((s.frame i).key) (some s.next);
    refs = update s.refs s.next (0 + 1);
    holder = update s.holder s.next none;
    next = s.next + 1;
    registry = none;
    frame = update s.frame i (record (s.frame i) { phase = waiting; lock = s.next });
  }
  take_ref s i (some id) = record s {
    refs = update s.refs id (s.refs id + 1);
    registry = none;
    frame = update s.frame i (record (s.frame i) { phase = waiting; lock = id });
  }

  -- The statements from `lock.refs--` to k.mu.Unlock().
  abbrev pub drop_ref : State K → ℕ → State K
  drop_ref s i =
      let id = (s.frame i).lock in
      record s {
        locks = ite (ℕ_discrete (s.refs id - 1) 0) (assign s.locks ((s.frame i).key) none) s.locks;
        refs = update s.refs id (s.refs id - 1);
        registry = none;
        frame = update s.frame i (record (s.frame i) { phase = idle });
      }

  -- What goroutine i can do next.
  pub data Move (s : State K) (i : ℕ) : State K → Type 0 where
    call :
        (k : K)
        → (s.frame i).phase ≡ idle
        → Move s i
            (record s { frame = update s.frame i (record (s.frame i) { phase = start; key = k }) })
    enter :
        (s.frame i).phase ≡ start
        → s.registry ≡ none
        → Move s i (go_to (record s { registry = some i }) i lookup)
    found : (s.frame i).phase ≡ lookup → Move s i (take_ref s i (s.locks ((s.frame i).key)))
    acquire :
        (s.frame i).phase ≡ waiting
        → s.holder ((s.frame i).lock) ≡ none
        → Move s i
            (go_to (record s { holder = update s.holder ((s.frame i).lock) (some i) }) i holding)
    unlock :
        (s.frame i).phase ≡ holding
        → Move s i
            (go_to (record s { holder = update s.holder ((s.frame i).lock) none }) i releasing)
    reenter :
        (s.frame i).phase ≡ releasing
        → s.registry ≡ none
        → Move s i (go_to (record s { registry = some i }) i dropping)
    drop : (s.frame i).phase ≡ dropping → Move s i (drop_ref s i)

  -- Some goroutine below n moves.
  pub data Step (n : ℕ) (s : State K) : State K → Type 0 where
    pick : {t : State K} (i : ℕ) → i < n → Move s i t → Step n s t

  -- newKeyedMutex, with every goroutine idle. The frames' variables are not set yet.
  abbrev pub fresh_mutex : (ℕ → K) → State K
  fresh_mutex keys = record {
    locks = λ k. none;
    refs = λ id. 0;
    holder = λ id. none;
    next = 0;
    registry = none;
    frame = λ i. record { phase = idle; key = keys i; lock = 0 };
  }

  pub data Reach (n : ℕ) : State K → Type 0 where
    at_start : (keys : ℕ → K) → Reach n (fresh_mutex keys)
    after : {s t : State K} → Reach n s → Step n s t → Reach n t
