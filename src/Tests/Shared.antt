-- ===== src/Tests/Shared.antt =====
-- The pool, at concrete inputs.
use pgfuse.Base.{
  ℕ, some, none, ltb, if◌then◌else◌, ◌==◌, ◌+◌, ◌≡◌, refl, sym, true, false, List, [], ◌∷◌, arith,
}
use pgfuse.Session.{ok}
use pgfuse.Pool.{
  Slot, available, error, Start, connect_slots, psql_pool_init, find_free, psql_pool_release,
  psql_pool_destroy,
}
use pgfuse.Pool.{Turn, Answer, waiting, psql_pool_acquire}
use pgfuse.Pool.Served.{Works, acquire_serves, acquire_stuck}
use pgfuse.Pool.Owner.{owner}
use pgfuse.Pool.Run.{
  System, IsFresh, Reachable, starts, acquires, acquire_exclusive, release_succeeds,
  destroy_finishes_all, failed,
}

-- A pool of three connections, of which the first could not be opened and the second has its memory.
abbrev three_connections : Start
three_connections = record {
  conns_given = true;
  avail_given = true;
  mutex_res = 0;
  cond_res = 0;
  connected = λ i. (if ltb i 2 then 7 else i + 100, if i == 0 then false else true);
}

three_connections-IsFresh : IsFresh three_connections.connected
three_connections-IsFresh i j h e = ground arith

abbrev three_slots : List Slot
three_slots =
    record { conn = 7; avail = error }
    ∷ record { conn = 7; avail = available }
    ∷ record { conn = 102; avail = available }
    ∷ []

started : psql_pool_init three_connections 3 ≡ ok (three_slots, 7 ∷ [])
unfolding psql_pool_init connect_slots
started = refl

abbrev pool_started : System
pool_started = record { slots = three_slots; holds = λ c. none }

-- Thread 5 has been given the second.
abbrev pool_busy : System
pool_busy = record {
  slots = (find_free (λ c. true) 5 three_slots).1;
  holds = λ c. if c == 7 then some 5 else none;
}

given : (find_free (λ c. true) 5 three_slots).0 ≡ some 7
unfolding find_free
given = refl

given_next : (find_free (λ c. true) 6 pool_busy.slots).0 ≡ some 102
unfolding find_free
given_next = refl

pool_busy-Reachable : Reachable pool_busy
pool_busy-Reachable =
    acquires pool_started (λ c. true) 5 7
      (starts three_connections 3 three_slots (7 ∷ []) three_connections-IsFresh started)
      (omega arith) given

acquire_exclusive_example : pool_busy.holds 102 ≡ none
acquire_exclusive_example =
    acquire_exclusive pool_busy (λ c. true) 6 102 pool_busy-Reachable given_next

release_succeeds_example :
    (slots : List Slot) × (psql_pool_release 0 pool_busy.slots 7 ≡ ok slots)
    × (owner 7 slots ≡ some available)
release_succeeds_example = release_succeeds pool_busy 5 7 0 pool_busy-Reachable refl (omega arith)

destroy_finishes_all_example :
    (7 ∷ [] ≡ failed three_slots) × ((psql_pool_destroy 0 0 three_slots).1 ≡ 7 ∷ 7 ∷ 102 ∷ [])
destroy_finishes_all_example =
    destroy_finishes_all three_connections 3 0 0 three_slots (7 ∷ []) started

-- All connections are lost or have been given.
abbrev taken : List Slot
taken = record { conn = 7; avail = error } ∷ record { conn = 102; avail = 5 } ∷ []

-- A thread that finds all connections taken, and then one that another thread has released.
abbrev turns : List Turn
turns =
    record { lock_res = 0; slots = taken; good = λ c. true; wait_res = 0 }
    ∷ record { lock_res = 0; slots = three_slots; good = λ c. true; wait_res = 0 }
    ∷ []

works : {t : Turn} → t.lock_res ≡ 0 → t.wait_res ≡ 0 → Works t
works l w = record { locks = omega arith; wakes = omega arith }

acquire_serves_example :
    (c : ℕ) × (slots : List Slot) × (psql_pool_acquire 9 turns ≡ Answer.given c slots)
acquire_serves_example =
    acquire_serves 9 turns (works refl refl, (works refl refl, tt)) (omega arith)

abbrev lost : List Slot
lost = record { conn = 7; avail = available } ∷ record { conn = 102; avail = 5 } ∷ []

-- The server has dropped the free connection, and is back in the second turn.
abbrev dropped : Turn
dropped = record { lock_res = 0; slots = lost; good = λ c. false; wait_res = 0 }

abbrev back : Turn
back = record { lock_res = 0; slots = taken; good = λ c. true; wait_res = 0 }

left : (find_free (λ c. false) 9 lost).1 ≡ taken
unfolding find_free
left = refl

acquire_stuck_example : psql_pool_acquire 9 (dropped ∷ back ∷ []) ≡ waiting
acquire_stuck_example =
    acquire_stuck 9 dropped (back ∷ []) (works refl refl, (works refl refl, tt)) refl (sym left, tt)
