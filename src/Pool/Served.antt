-- ===== src/Pool/Served.antt =====
-- psql_pool_acquire, pool.c, lines 101-141: when the loop ends.
use pgfuse.Base.{
  ℕ, ◌<◌, ◌^◌, ◌≡◌, refl, ◌∙◌, ltb, ◌&&◌, Bool, true, false, Option, none, some, List, [], ◌∷◌,
  arith, ◌==◌, countb, Bool-cases, inl, inr,
}
use pgfuse.Pool.{
  Slot, available, below_zero, find_free, Turn, Answer, given, waiting, after_scan,
  psql_pool_acquire,
}

-- A slot whose connection is free and open.
abbrev pub is_free : (ℕ → Bool) → Slot → Bool
is_free good s = (s.avail == available) && good s.conn

abbrev pub is_available : Slot → Bool
is_available s = s.avail == available

-- The lock and the condition work as POSIX has it: their results are 0 or an error number.
pub record Works (t : Turn) : Type 0 where
  pub locks : t.lock_res < 2 ^ 31
  pub wakes : t.wait_res < 2 ^ 31

abbrev pub AllWork : List Turn → Type 0
AllWork [] = Unit {0}
AllWork (t ∷ ts) = Works t × AllWork ts

module _ (good : ℕ → Bool) (thread : ℕ) where
  find_free-some :
      (ss : List Slot)
      → 0 < countb (is_free good) ss
      → (c : ℕ) × ((find_free good thread ss).0 ≡ some c)
  unfolding find_free
  find_free-some [] h = absurd (omega arith)
  find_free-some (s ∷ ss) h = elim (Bool-cases (is_free good s)) [
    | inl e ↦ (s.conn, ground (arith, e))
    | inr e ↦ let (c, q) = find_free-some ss (ground (arith, h, e)) in (c, ground (arith, e, q))
  ]

  find_free-none :
      (ss : List Slot) → countb (is_free good) ss ≡ 0 → (find_free good thread ss).0 ≡ none
  unfolding find_free
  find_free-none [] h = refl
  find_free-none (s ∷ ss) h = ground (arith, h, find_free-none ss)

-- Whether there is a connection for the thread in this turn.
abbrev pub has_free : Turn → Bool
has_free t = ltb 0 (countb (is_free t.good) t.slots)

module _ (wait_res : ℕ) (later : Answer) where
  after_scan-some :
      (c : ℕ) (r : Option ℕ × List Slot) → r.0 ≡ some c → after_scan wait_res r later ≡ given c r.1
  unfolding after_scan
  after_scan-some c (some a, slots) h = cc
  after_scan-some c (none, slots) h = cc

  after_scan-none :
      (r : Option ℕ × List Slot)
      → r.0 ≡ none
      → below_zero wait_res ≡ false
      → after_scan wait_res r later ≡ later
  unfolding after_scan
  after_scan-none (some a, slots) h woken = cc
  after_scan-none (none, slots) h woken = simp woken refl

module _ (thread : ℕ) where
  turn_serves :
      (t : Turn) (ts : List Turn)
      → Works t
      → has_free t ≡ true
      → (c : ℕ) × (slots : List Slot) × (psql_pool_acquire thread (t ∷ ts) ≡ given c slots)
  unfolding psql_pool_acquire
  turn_serves t ts works h =
      let (c, e) = find_free-some t.good thread t.slots (ground (arith, h)) in
      let locked : below_zero t.lock_res ≡ false = ground (arith, works.locks) in
      (c, (find_free t.good thread t.slots).1, simp locked (after_scan-some t.wait_res _ c _ e))

  turn_waits :
      (t : Turn) (ts : List Turn)
      → Works t
      → has_free t ≡ false
      → psql_pool_acquire thread (t ∷ ts) ≡ psql_pool_acquire thread ts
  unfolding psql_pool_acquire
  turn_waits t ts works h =
      let e = find_free-none t.good thread t.slots (ground (arith, h)) in
      let locked : below_zero t.lock_res ≡ false = ground (arith, works.locks) in
      let woken : below_zero t.wait_res ≡ false = ground (arith, works.wakes) in
      simp locked (after_scan-none t.wait_res _ _ e woken)

  -- While the lock and the condition work, psql_pool_acquire gives a connection as soon as one of
  -- its turns meets a slot that is free and open.
  pub acquire_serves :
      (ts : List Turn)
      → AllWork ts
      → 0 < countb has_free ts
      → (c : ℕ) × (slots : List Slot) × (psql_pool_acquire thread ts ≡ given c slots)
  acquire_serves [] works h = absurd (omega arith)
  acquire_serves (t ∷ ts) (w, works) h = elim (Bool-cases (has_free t)) [
    | inl e ↦ turn_serves t ts w e
    | inr e ↦
        let (c, slots, q) = acquire_serves ts works (ground (arith, h, e)) in
        (c, slots, turn_waits t ts w e ∙ q)
  ]

  -- The call does not return as long as none of its turns meets a slot that is free and open.
  acquire_waits :
      (ts : List Turn) → AllWork ts → countb has_free ts ≡ 0 → psql_pool_acquire thread ts ≡ waiting
  unfolding psql_pool_acquire
  acquire_waits [] works h = refl
  acquire_waits (t ∷ ts) (w, works) h = elim (Bool-cases (has_free t)) [
    | inl e ↦ absurd (ground (arith, h, e))
    | inr e ↦ turn_waits t ts w e ∙ acquire_waits ts works (ground (arith, h, e))
  ]

  -- Only the thread itself has changed the slots between its turns.
  abbrev pub Follow : List Slot → List Turn → Type 0
  Follow slots [] = Unit {0}
  Follow slots (t ∷ ts) = (t.slots ≡ slots) × Follow (find_free t.good thread t.slots).1 ts

  none_available :
      (good : ℕ → Bool) (ss : List Slot)
      → countb (is_free good) ss ≡ 0
      → countb is_available (find_free good thread ss).1 ≡ 0
  unfolding find_free
  none_available good [] h = refl
  none_available good (s ∷ ss) h = ground (arith, h, none_available good ss)

  never_free :
      (good : ℕ → Bool) (ss : List Slot) → countb is_available ss ≡ 0 → countb (is_free good) ss ≡ 0
  never_free good [] h = refl
  never_free good (s ∷ ss) h = ground (arith, h, never_free good ss)

  no_turn :
      (slots : List Slot) (ts : List Turn)
      → countb is_available slots ≡ 0
      → Follow slots ts
      → countb has_free ts ≡ 0
  no_turn slots [] h follow = refl
  no_turn slots (t ∷ ts) h (same, follow) =
      let free : countb (is_free t.good) t.slots ≡ 0 = never_free t.good t.slots (rw same h) in
      let rest =
        no_turn (find_free t.good thread t.slots).1 ts (none_available t.good t.slots free)
          follow in
      ground (arith, free, rest)

  -- While the lock and the condition work, and no other thread changes a slot, a thread that meets
  -- no slot that is free and open waits for ever, even if the connections are open again in every
  -- later turn: the slots whose connection was lost are not looked at again.
  pub acquire_stuck :
      (t : Turn) (ts : List Turn)
      → AllWork (t ∷ ts)
      → countb (is_free t.good) t.slots ≡ 0
      → Follow (find_free t.good thread t.slots).1 ts
      → psql_pool_acquire thread (t ∷ ts) ≡ waiting
  acquire_stuck t ts works free follow =
      let later =
        no_turn (find_free t.good thread t.slots).1 ts (none_available t.good t.slots free)
          follow in
      acquire_waits (t ∷ ts) works (ground (arith, free, later))
