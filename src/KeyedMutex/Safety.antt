-- ===== src/KeyedMutex/Safety.antt =====
-- What the callers of keyedMutex rely on.
use sitebrush_v.Prelude.{ℕ, ◌<◌, ◌≡◌, ◌≢◌, ◌⊎◌, refl, true, none, arith, Option-cases, inl, inr}
use sitebrush_v.KeyedMutex.Family.{total-eq-zero}
use sitebrush_v.KeyedMutex.System.{
  Phase, idle, start, lookup, waiting, holding, releasing, dropping, State, take_ref, drop_ref,
  enter, found, acquire, unlock, reenter, drop, Step, pick, Reach,
}
use sitebrush_v.KeyedMutex.Invariant.{inside, counts, Inv}
use sitebrush_v.KeyedMutex.Moves.{Reach-Inv}

inside_cases : (p : Phase) → inside p ≡ true → (p ≡ lookup) ⊎ (p ≡ dropping)
inside_cases lookup h = inl refl
inside_cases dropping h = inr refl
inside_cases p h = absurd (cc h)

-- Some goroutine that is in lock, or between lock and the end of unlock, can move.
abbrev pub CanMove : {K : Type 0} → Discrete K → ℕ → State K → Type 0
CanMove {K} same n s = (j : ℕ) × (t : State K) × ((s.frame j).phase ≢ idle) × Step same n s t

module _ {K : Type 0} (same : Discrete K) {n : ℕ} {s : State K} where
  -- Two goroutines that have both returned from lock with the same key, and not yet unlocked, are the
  -- same goroutine.
  pub mutual_exclusion :
      Reach same n s
      → (i j : ℕ) → (s.frame i).phase ≡ holding
      → (s.frame j).phase ≡ holding
      → (s.frame i).key ≡ (s.frame j).key
      → i ≡ j
  mutual_exclusion r i j hi hj e =
      let inv = Reach-Inv same r in
      ground (arith, inv.mapped i, inv.mapped j, inv.holds i, inv.holds j)

  -- When every goroutine is idle the map is empty: no entry is leaked.
  pub no_leak : Reach same n s → ((i : ℕ) → (s.frame i).phase ≡ idle) → (k : K) → s.locks k ≡ none
  no_leak r quiet k = elim (Option-cases (s.locks k)) [
    | inl e ↦ e
    | inr (id, e) ↦ absurd (
        omega (
          arith,
          inv.live k id e,
          inv.counted id,
          total-eq-zero (counts id) n s.frame (λ j. ground (arith, quiet j)),
        ))
  ]
    where
      inv : Inv n s
      inv = Reach-Inv same r

  -- A goroutine that drops its reference finds it counted, so refs never falls below 0.
  pub refs_pos :
      Reach same n s → (i : ℕ) → (s.frame i).phase ≡ dropping → 0 < s.refs (s.frame i).lock
  refs_pos r i p =
      let inv = Reach-Inv same r in inv.live (s.frame i).key (s.frame i).lock (inv.mapped i (rw p))

  module _ (inv : Inv n s) where
    below : (i : ℕ) → (s.frame i).phase ≢ idle → i < n
    below i busy = ground (arith, inv.outside i)

    inside_moves : (i : ℕ) → inside (s.frame i).phase ≡ true → CanMove same n s
    inside_moves i h = elim (inside_cases (s.frame i).phase h) [
      | inl p ↦ (
        i,
        take_ref same s i (s.locks (s.frame i).key),
        λ e. cc,
        pick i (below i (λ e. cc)) (found p),
      )
      | inr p ↦ (i, drop_ref same s i, λ e. cc, pick i (below i (λ e. cc)) (drop p))
    ]

    holding_moves : (i : ℕ) → (s.frame i).phase ≡ holding → CanMove same n s
    holding_moves i p = (i, _, λ e. cc, pick i (below i (λ e. cc)) (unlock p))

    -- A goroutine that wants k.mu gets it, or the one that has it moves.
    registry_moves : (i : ℕ) → (s.registry ≡ none → CanMove same n s) → CanMove same n s
    registry_moves i free = elim (Option-cases s.registry) [
      | inl e ↦ free e
      | inr (j, e) ↦ inside_moves j (inv.has_registry j e)
    ]

    holder_moves : (i id : ℕ) → (s.holder id ≡ none → CanMove same n s) → CanMove same n s
    holder_moves i id free = elim (Option-cases (s.holder id)) [
      | inl e ↦ free e
      | inr (j, e) ↦ holding_moves j ((inv.held id j e).0)
    ]

    busy_moves : (i : ℕ) (p : Phase) → (s.frame i).phase ≡ p → p ≢ idle → CanMove same n s
    busy_moves i idle e busy = absurd (busy refl)
    busy_moves i start e busy =
        registry_moves i (λ f. (i, _, λ q. cc, pick i (below i (λ q. cc)) (enter e f)))
    busy_moves i lookup e busy = inside_moves i (rw e)
    busy_moves i waiting e busy =
        holder_moves i (s.frame i).lock
          (λ f. (i, _, λ q. cc, pick i (below i (λ q. cc)) (acquire e f)))
    busy_moves i holding e busy = holding_moves i e
    busy_moves i releasing e busy =
        registry_moves i (λ f. (i, _, λ q. cc, pick i (below i (λ q. cc)) (reenter e f)))
    busy_moves i dropping e busy = inside_moves i (rw e)

  -- No deadlock: if some goroutine is in lock, or between lock and the end of unlock, then some such
  -- goroutine can move.
  pub no_deadlock : Reach same n s → (i : ℕ) → (s.frame i).phase ≢ idle → CanMove same n s
  no_deadlock r i busy = busy_moves (Reach-Inv same r) i (s.frame i).phase refl busy
