-- ===== src/Pool/Run.antt =====
-- pool.c with many threads: each turn of find_free and each psql_pool_release is a step,
-- since each runs under the lock; the steps of the threads come in any order.
use pgfuse.Base.{
  ℕ, zero, suc, ◌+◌, ◌≤◌, ◌<◌, ◌^◌, ◌≡◌, ◌≢◌, false, inl, inr, refl, sym, ap, ◌∙◌, Bool, true,
  Option, none, some, List, map, filterb, arith, ◌==◌, if◌then◌else◌, Bool-cases, Option-cases,
}
use pgfuse.Session.{ok}
use pgfuse.Pool.{
  Slot, available, error, Start, connect_slots, psql_pool_init, find_free, psql_pool_release,
  psql_pool_destroy, finished, below_zero, free_last,
}
use pgfuse.Pool.Owner.{
  owner, Live, acquire-owner, acquire-found, acquire-Live, free_last-other, free_last-Live,
  free_last-owned,
}

-- The pool, and which thread has been given each connection and has not released it.
pub record System : Type 0 where
  pub slots : List Slot
  pub holds : ℕ → Option ℕ

abbrev assign : ℕ → Option ℕ → (ℕ → Option ℕ) → ℕ → Option ℕ
assign c t holds c' = if c' == c then t else holds c'

-- The memory of a connection that is open is not given to a later one.
abbrev pub IsFresh : (ℕ → ℕ × Bool) → Type 0
IsFresh connected = (i j : ℕ) → i < j → (connected i).1 ≡ true → (connected j).0 ≢ (connected i).0

-- Threads whose pthread_self is not one of the two marks.
pub data Reachable : System → Type 0 where
  starts :
      (w : Start) (n : ℕ) (slots : List Slot) (closed : List ℕ)
      → IsFresh w.connected
      → psql_pool_init w n ≡ ok (slots, closed)
      → Reachable (record { slots = slots; holds = λ c. none })
  acquires :
      (p : System) (good : ℕ → Bool) (thread c : ℕ)
      → Reachable p
      → thread < error
      → (find_free good thread p.slots).0 ≡ some c
      → Reachable (record {
        slots = (find_free good thread p.slots).1;
        holds = assign c (some thread) p.holds;
      })
  waits :
      (p : System) (good : ℕ → Bool) (thread : ℕ)
      → Reachable p
      → (find_free good thread p.slots).0 ≡ none
      → Reachable (record p { slots = (find_free good thread p.slots).1 })
  releases :
      (p : System) (thread c lock_res : ℕ) (slots : List Slot)
      → Reachable p
      → p.holds c ≡ some thread
      → psql_pool_release lock_res p.slots c ≡ ok slots
      → Reachable (record { slots = slots; holds = assign c none p.holds })

pub record Inv (p : System) : Type 0 where
  pub live : Live p.slots
  pub held : (c t : ℕ) → p.holds c ≡ some t → (owner c p.slots ≡ some t) × (t < error)

module _ (connected : ℕ → ℕ × Bool) where
  owner-connect_slots :
      (c n k : ℕ)
      → ((j : ℕ) → k ≤ j → (connected j).0 ≢ c)
      → owner c (connect_slots connected n k).0 ≡ none
  unfolding connect_slots
  owner-connect_slots c zero k h = refl
  owner-connect_slots c (suc n) k h =
      rw (owner-connect_slots c n (k + 1) λ j le. h j (omega arith))
        (ground (arith, h k (omega arith)))

  connect_slots-Live : (n k : ℕ) → IsFresh connected → Live (connect_slots connected n k).0
  unfolding connect_slots
  connect_slots-Live zero k fresh = tt
  connect_slots-Live (suc n) k fresh = elim (Bool-cases (connected k).1) [
    | inl e ↦ (
      inr (owner-connect_slots (connected k).0 n (k + 1) λ j le. fresh k j (omega arith) e),
      connect_slots-Live n (k + 1) fresh,
    )
    | inr e ↦ (inl (rw e refl), connect_slots-Live n (k + 1) fresh)
  ]

init_slots :
    (w : Start) (n : ℕ) (slots : List Slot) (closed : List ℕ)
    → psql_pool_init w n ≡ ok (slots, closed)
    → ((connect_slots w.connected n 0).0 ≡ slots) × ((connect_slots w.connected n 0).1 ≡ closed)
unfolding psql_pool_init
init_slots w n slots closed h =
    let same : connect_slots w.connected n 0 ≡ (slots, closed) = ground (arith, h) in
    (ap (λ p. p.0) same, ap (λ p. p.1) same)

release_slots :
    (lock_res c : ℕ) (ss slots : List Slot)
    → psql_pool_release lock_res ss c ≡ ok slots
    → free_last c ss ≡ some slots
unfolding psql_pool_release
release_slots lock_res c ss slots h = ground (arith, h)

Reachable-Inv : (p : System) → Reachable p → Inv p
Reachable-Inv p (starts w n slots closed fresh e) = record {
  live = rw (sym (init_slots w n slots closed e).0) (connect_slots-Live w.connected n 0 fresh);
  held = λ c t q. cc;
}
Reachable-Inv p (acquires q good thread c r small e) =
    let inv = Reachable-Inv q r in
    record {
      live = acquire-Live good thread q.slots inv.live;
      held = λ c' t h. elim (Bool-cases (c' == c)) [
        | inl f ↦
            let given = acquire-found good thread c q.slots inv.live e in
            ground (arith, h, f, given, small)
        | inr f ↦
            let (o, lt) = inv.held c' t (rw f at h) in
            (acquire-owner good thread c' t q.slots (omega arith) o, lt)
      ];
    }
Reachable-Inv p (waits q good thread r e) =
    let inv = Reachable-Inv q r in
    record {
      live = acquire-Live good thread q.slots inv.live;
      held = λ c t h.
          let (o, small) = inv.held c t h in
          (acquire-owner good thread c t q.slots (omega arith) o, small);
    }
Reachable-Inv p (releases q thread c lock_res slots r h e) =
    let inv = Reachable-Inv q r in
    record {
      live = free_last-Live c q.slots slots inv.live (release_slots lock_res c q.slots slots e);
      held = λ c' t k. elim (Bool-cases (c' == c)) [
        | inl f ↦ ground (arith, k, f)
        | inr f ↦
            let (o, lt) = inv.held c' t (rw f at k) in
            (
              free_last-other c c' q.slots slots (ground (arith, f))
                    (release_slots lock_res c q.slots slots e)
                  ∙ o,
              lt,
            )
      ];
    }

-- In every run of the pool, with the threads' calls in any order, with connections that fail at the
-- start or later, a connection that psql_pool_acquire finds free is one
-- that no thread holds.
pub acquire_exclusive :
    (p : System) (good : ℕ → Bool) (thread c : ℕ)
    → Reachable p
    → (find_free good thread p.slots).0 ≡ some c
    → p.holds c ≡ none
acquire_exclusive p good thread c r e =
    let inv = Reachable-Inv p r in
    let found = acquire-found good thread c p.slots inv.live e in
    elim (Option-cases (p.holds c)) [
      | inl h ↦ h
      | inr (t, h) ↦ ground (arith, inv.held c t h, found)
    ]

-- In every run of the pool, a thread that holds a connection and gets the lock can release it: the
-- result is 0, and the connection is marked as available again.
pub release_succeeds :
    (p : System) (thread c lock_res : ℕ)
    → Reachable p
    → p.holds c ≡ some thread
    → lock_res < 2 ^ 31
    → (slots : List Slot) × (psql_pool_release lock_res p.slots c ≡ ok slots)
      × (owner c slots ≡ some available)
unfolding psql_pool_release
release_succeeds p thread c lock_res r h locked =
    let inv = Reachable-Inv p r in
    let (slots, e, o) = free_last-owned c thread p.slots (inv.held c thread h).0 in
    let lock : below_zero lock_res ≡ false = ground arith in (slots, simp (lock, e) refl, o)

-- The slots whose connection could not be opened, or was lost.
abbrev pub failed : List Slot → List ℕ
failed slots = map (λ s. s.conn) (filterb (λ s. s.avail == error) slots)

module _ (connected : ℕ → ℕ × Bool) where
  destroy_slots :
      (n k : ℕ)
      → finished (connect_slots connected n k).0 ≡ map (λ s. s.conn) (connect_slots connected n k).0
  unfolding finished connect_slots
  destroy_slots zero k = refl
  destroy_slots (suc n) k = ground (arith, destroy_slots n (k + 1))

  closed_slots :
      (n k : ℕ) → (connect_slots connected n k).1 ≡ failed (connect_slots connected n k).0
  unfolding connect_slots
  closed_slots zero k = refl
  closed_slots (suc n) k = ground (arith, closed_slots n (k + 1))

-- The connections that psql_pool_init hands to PQfinish are those of the slots that it marks as
-- ERROR, and psql_pool_destroy right after it hands the connections of all slots to PQfinish: each
-- that could not be opened is finished twice.
pub destroy_finishes_all :
    (w : Start) (n cond_res mutex_res : ℕ) (slots : List Slot) (closed : List ℕ)
    → psql_pool_init w n ≡ ok (slots, closed)
    → (closed ≡ failed slots)
      × ((psql_pool_destroy cond_res mutex_res slots).1 ≡ map (λ s. s.conn) slots)
unfolding psql_pool_destroy
destroy_finishes_all w n cond_res mutex_res slots closed e =
    let (same, same') = init_slots w n slots closed e in
    rw (sym same, sym same') (closed_slots w.connected n 0, destroy_slots w.connected n 0)
