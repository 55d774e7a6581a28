-- ===== src/KeyedMutex/Moves.antt =====
-- Every move keeps the invariant.
use sitebrush_v.Prelude.{
  ℕ, ◌+◌, ◌≤◌, ◌<◌, ◌≡◌, ◌≢◌, refl, true, none, some, arith, Option-cases, sym, inl, inr,
}
use sitebrush_v.KeyedMutex.Family.{update, total, total-update, total-two, total-eq-zero}
use sitebrush_v.KeyedMutex.System.{
  idle, start, lookup, waiting, holding, releasing, dropping, Frame, State, fresh_mutex, take_ref,
  drop_ref, go_to, Move, call, enter, found, acquire, unlock, reenter, drop, pick, Reach, at_start,
  after,
}
use sitebrush_v.KeyedMutex.Invariant.{has_ref, counts, Inv}

module _ {K : Type 0} {n : ℕ} {s : State K} (inv : Inv n s) (i : ℕ) (lt : i < n) where
  -- The sum at an address after one frame changed.
  recount :
      (id : ℕ) (f : Frame K)
      → total (counts id) n (update s.frame i f) + counts id (s.frame i) ≡ s.refs id + counts id f
  recount id f = rw (inv.counted id) (total-update (counts id) n s.frame i f lt)

  call-Inv :
      (k : K)
      → (s.frame i).phase ≡ idle
      → Inv n
          (record s { frame = update s.frame i (record (s.frame i) { phase = start; key = k }) })
  call-Inv k p = record {
    counted = λ id. ground (arith, recount id (record (s.frame i) { phase = start; key = k }));
    mapped = λ j h. ground (arith, inv.mapped j);
    live = inv.live;
    allocated = inv.allocated;
    distinct = inv.distinct;
    unused = inv.unused;
    holds = λ j h. ground (arith, inv.holds j);
    held = λ id j h. ground (arith, inv.held id j);
    entered = λ j h. ground (arith, inv.entered j);
    has_registry = λ j h. ground (arith, inv.has_registry j);
    outside = λ j h. ground (arith, inv.outside j);
  }

  enter-Inv :
      (s.frame i).phase ≡ start
      → s.registry ≡ none
      → Inv n (go_to (record s { registry = some i }) i lookup)
  enter-Inv p free = record {
    counted = λ id. ground (arith, recount id (record (s.frame i) { phase = lookup }));
    mapped = λ j h. ground (arith, inv.mapped j);
    live = inv.live;
    allocated = inv.allocated;
    distinct = inv.distinct;
    unused = inv.unused;
    holds = λ j h. ground (arith, inv.holds j);
    held = λ id j h. ground (arith, inv.held id j);
    entered = λ j h. ground (arith, inv.entered j);
    has_registry = λ j h. ground (arith, inv.has_registry j);
    outside = λ j h. ground (arith, inv.outside j);
  }

  reenter-Inv :
      (s.frame i).phase ≡ releasing
      → s.registry ≡ none
      → Inv n (go_to (record s { registry = some i }) i dropping)
  reenter-Inv p free = record {
    counted = λ id. ground (arith, recount id (record (s.frame i) { phase = dropping }));
    mapped = λ j h. ground (arith, inv.mapped j);
    live = inv.live;
    allocated = inv.allocated;
    distinct = inv.distinct;
    unused = inv.unused;
    holds = λ j h. ground (arith, inv.holds j);
    held = λ id j h. ground (arith, inv.held id j);
    entered = λ j h. ground (arith, inv.entered j);
    has_registry = λ j h. ground (arith, inv.has_registry j);
    outside = λ j h. ground (arith, inv.outside j);
  }

  acquire-Inv :
      (s.frame i).phase ≡ waiting
      → s.holder (s.frame i).lock ≡ none
      → Inv n (go_to (record s { holder = update s.holder (s.frame i).lock (some i) }) i holding)
  acquire-Inv p free = record {
    counted = λ id. ground (arith, recount id (record (s.frame i) { phase = holding }));
    mapped = λ j h. ground (arith, inv.mapped j);
    live = inv.live;
    allocated = inv.allocated;
    distinct = inv.distinct;
    unused = λ id h.
        ground
          (arith, inv.unused id h, inv.mapped i, inv.allocated (s.frame i).key (s.frame i).lock);
    holds = λ j h. ground (arith, inv.holds j);
    held = λ id j h. ground (arith, inv.held id j);
    entered = λ j h. ground (arith, inv.entered j);
    has_registry = λ j h. ground (arith, inv.has_registry j);
    outside = λ j h. ground (arith, inv.outside j);
  }

  unlock-Inv :
      (s.frame i).phase ≡ holding
      → Inv n (go_to (record s { holder = update s.holder (s.frame i).lock none }) i releasing)
  unlock-Inv p = record {
    counted = λ id. ground (arith, recount id (record (s.frame i) { phase = releasing }));
    mapped = λ j h. ground (arith, inv.mapped j);
    live = inv.live;
    allocated = inv.allocated;
    distinct = inv.distinct;
    unused = λ id h. ground (arith, inv.unused id h);
    holds = λ j h. ground (arith, inv.holds j, inv.holds i);
    held = λ id j h. ground (arith, inv.held id j);
    entered = λ j h. ground (arith, inv.entered j);
    has_registry = λ j h. ground (arith, inv.has_registry j);
    outside = λ j h. ground (arith, inv.outside j);
  }

  module _ (same : Discrete K) where
    taken-Inv :
        (id : ℕ)
        → (s.frame i).phase ≡ lookup
        → s.locks (s.frame i).key ≡ some id
        → Inv n (take_ref same s i (some id))
    taken-Inv id p e = record {
      counted = λ a.
          ground
            (arith, recount a (record (s.frame i) { phase = waiting; lock = id }), inv.counted a);
      mapped = λ j h. ground (arith, inv.mapped j);
      live = λ k a h. ground (arith, inv.live k a);
      allocated = inv.allocated;
      distinct = inv.distinct;
      unused = inv.unused;
      holds = λ j h. ground (arith, inv.holds j);
      held = λ a j h. ground (arith, inv.held a j);
      entered = λ j h. ground (arith, inv.entered j, inv.entered i);
      has_registry = λ j h. cc;
      outside = λ j h. ground (arith, inv.outside j);
    }

    -- Nobody is counted at an address that was never allocated.
    none_at_next : total (counts s.next) n s.frame ≡ 0
    none_at_next =
        total-eq-zero (counts s.next) n s.frame
          (λ j. ground (arith, inv.mapped j, inv.allocated (s.frame j).key (s.frame j).lock))

    created-Inv :
        (s.frame i).phase ≡ lookup → s.locks (s.frame i).key ≡ none → Inv n (take_ref same s i none)
    created-Inv p e = record {
      counted = λ a. ground (
        arith,
        recount a (record (s.frame i) { phase = waiting; lock = s.next }),
        inv.counted a,
        inv.counted s.next,
        none_at_next,
      );
      mapped = λ j h. ground (arith, inv.mapped j);
      live = λ k a h. ground (arith, inv.live k a, inv.allocated k a);
      allocated = λ k a h. ground (arith, inv.allocated k a);
      distinct =
          λ k j a h g. ground (arith, inv.distinct k j a, inv.allocated k a, inv.allocated j a);
      unused = λ a h. ground (arith, inv.unused a);
      holds = λ j h.
          ground (arith, inv.holds j, inv.mapped j, inv.allocated (s.frame j).key (s.frame j).lock);
      held = λ a j h. ground (arith, inv.held a j, inv.unused s.next);
      entered = λ j h. ground (arith, inv.entered j, inv.entered i);
      has_registry = λ j h. cc;
      outside = λ j h. ground (arith, inv.outside j);
    }

    -- Another goroutine that is counted at the same address keeps refs above 1.
    shared :
        (j : ℕ)
        → i ≢ j
        → (s.frame i).phase ≡ dropping
        → has_ref (s.frame j).phase ≡ true
        → (s.frame j).lock ≡ (s.frame i).lock
        → 2 ≤ s.refs (s.frame i).lock
    shared j ne p h e = ground (
      arith,
      inv.counted (s.frame i).lock,
      inv.outside j,
      total-two (counts (s.frame i).lock) n s.frame i j lt,
    )

    dropped-Inv : (s.frame i).phase ≡ dropping → Inv n (drop_ref same s i)
    dropped-Inv p = record {
      counted = λ a. ground (arith, recount a (record (s.frame i) { phase = idle }), inv.counted a);
      mapped = λ j h. ground (arith, inv.mapped j, inv.mapped i, shared j);
      live = λ k a h. ground (arith, inv.live k a, inv.mapped i, inv.distinct k (s.frame i).key a);
      allocated = λ k a h. ground (arith, inv.allocated k a);
      distinct = λ k j a h g. ground (arith, inv.distinct k j a);
      unused = inv.unused;
      holds = λ j h. ground (arith, inv.holds j);
      held = λ a j h. ground (arith, inv.held a j);
      entered = λ j h. ground (arith, inv.entered j, inv.entered i);
      has_registry = λ j h. cc;
      outside = λ j h. ground (arith, inv.outside j);
    }

    found-Inv : (s.frame i).phase ≡ lookup → Inv n (take_ref same s i (s.locks (s.frame i).key))
    found-Inv p = elim (Option-cases (s.locks (s.frame i).key)) [
      | inl e ↦ rw e (created-Inv p e)
      | inr (id, e) ↦ rw e (taken-Inv id p e)
    ]

module _ {K : Type 0} (same : Discrete K) {n : ℕ} where
  pub Move-Inv : {s : State K} {i : ℕ} {t : State K} → Inv n s → i < n → Move same s i t → Inv n t
  Move-Inv inv lt (call k p) = call-Inv inv _ lt k p
  Move-Inv inv lt (enter p free) = enter-Inv inv _ lt p free
  Move-Inv inv lt (found p) = found-Inv inv _ lt same p
  Move-Inv inv lt (acquire p free) = acquire-Inv inv _ lt p free
  Move-Inv inv lt (unlock p) = unlock-Inv inv _ lt p
  Move-Inv inv lt (reenter p free) = reenter-Inv inv _ lt p free
  Move-Inv inv lt (drop p) = dropped-Inv inv _ lt same p

  Inv-fresh_mutex : (keys : ℕ → K) → Inv n (fresh_mutex same keys)
  Inv-fresh_mutex keys = record {
    counted = λ id. sym (total-eq-zero (counts id) n (fresh_mutex same keys).frame (λ i. refl));
    mapped = λ i h. cc;
    live = λ k id h. absurd (cc h);
    allocated = λ k id h. absurd (cc h);
    distinct = λ k j id h g. absurd (cc h);
    unused = λ id h. refl;
    holds = λ i h. cc;
    held = λ id i h. absurd (cc h);
    entered = λ i h. cc;
    has_registry = λ i h. cc;
    outside = λ i h. refl;
  }

  -- Every reachable state of the registry has the invariant.
  pub Reach-Inv : {s : State K} → Reach same n s → Inv n s
  Reach-Inv (at_start keys) = Inv-fresh_mutex keys
  Reach-Inv (after r (pick i lt m)) = Move-Inv (Reach-Inv r) lt m
