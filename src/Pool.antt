-- ===== src/Pool.antt =====
-- pool.c: the connections that the hooks share when the mount is multi-threaded. `conns[i]` and
-- `avail[i]` are one slot. A pthread_t is a 64-bit pattern, and so are AVAILABLE and ERROR; the
-- results of the pthread functions are 32-bit patterns.
use pgfuse.Base.{
  ℕ, zero, suc, ◌+◌, ◌-◌, ◌*◌, ◌^◌, ◌≡◌, Bool, true, false, Option, none, some, List, [], ◌∷◌, ◌++◌,
  ◌==◌, ltb, leb, if◌then◌else◌,
}
use pgfuse.Session.{Ret, ok, err, enomem, einval}
pub mod Owner
pub mod Run
pub mod Served

-- `#define AVAILABLE -1` and `#define ERROR -2`, stored in a pthread_t.
abbrev pub available : ℕ
available = 2 ^ 64 - 1

abbrev pub error : ℕ
error = 2 ^ 64 - 2

pub record Slot : Type 0 where
  pub conn : ℕ
  pub avail : ℕ

-- What psql_pool_init meets: whether malloc gives memory, the results of pthread_mutex_init and
-- pthread_cond_init, and for each PQconnectdb the pointer and whether the status is CONNECTION_OK.
pub record Start : Type 0 where
  pub conns_given : Bool
  pub avail_given : Bool
  pub mutex_res : ℕ
  pub cond_res : ℕ
  pub connected : ℕ → ℕ × Bool

abbrev pub below_zero : ℕ → Bool
below_zero res = leb (2 ^ 31) res

-- The slots, and the connections that are handed to PQfinish since they could not be opened.
unfoldable pub connect_slots : (ℕ → ℕ × Bool) → ℕ → ℕ → List Slot × List ℕ
connect_slots connected zero i = ([], [])
connect_slots connected (suc n) i =
    let (c, good) = connected i in
    let (slots, closed) = connect_slots connected n (i + 1) in
    (
      record { conn = c; avail = if good then available else error } ∷ slots,
      if good then closed else c ∷ closed,
    )

-- The slots of the pool, and the connections that are handed to PQfinish.
unfoldable pub psql_pool_init : Start → ℕ → Ret (List Slot × List ℕ)
psql_pool_init w max_connections =
    if w.conns_given
    then (if w.avail_given
        then (if below_zero w.mutex_res
            then err (2 ^ 32 - w.mutex_res)
            else if below_zero w.cond_res
            then err (2 ^ 32 - w.cond_res)
            else ok (connect_slots w.connected max_connections 0))
        else err enomem)
    else err enomem

-- The connections that psql_pool_destroy hands to PQfinish. `avail[i] > 0` compares unsigned.
unfoldable pub finished : List Slot → List ℕ
finished [] = []
finished (s ∷ ss) =
    let rest = finished ss in
    if s.avail == available then s.conn ∷ rest else if ltb 0 s.avail then s.conn ∷ rest else rest

-- `cond_res` and `mutex_res` are what pthread_cond_destroy and pthread_mutex_destroy return.
unfoldable pub psql_pool_destroy : ℕ → ℕ → List Slot → ℕ × List ℕ
psql_pool_destroy cond_res mutex_res slots =
    (if below_zero cond_res then cond_res else mutex_res, finished slots)

-- The loop over the slots in psql_pool_acquire: the first connection that is free and open, if
-- there is one. `good` is PQstatus.
unfoldable pub find_free : (ℕ → Bool) → ℕ → List Slot → Option ℕ × List Slot
find_free good thread [] = (none, [])
find_free good thread (s ∷ ss) =
    let (found, rest) = find_free good thread ss in
    if s.avail == available
    then (if good s.conn
        then (some s.conn, record s { avail = thread } ∷ ss)
        else (found, record s { avail = error } ∷ rest))
    else (found, s ∷ rest)

-- What a thread meets in one turn of `for( ;; )`: the results of pthread_mutex_lock and
-- pthread_cond_wait, the slots as the other threads have left them, and PQstatus.
pub record Turn : Type 0 where
  pub lock_res : ℕ
  pub slots : List Slot
  pub good : ℕ → Bool
  pub wait_res : ℕ

-- What has become of the call: a connection, NULL, or it still waits.
pub data Answer : Type 0 where
  given : (conn : ℕ) (slots : List Slot) → Answer
  null waiting : Answer

-- A turn that finds no connection waits for the condition and turns again.
unfoldable pub after_scan : ℕ → Option ℕ × List Slot → Answer → Answer
after_scan wait_res (some conn, slots) later = given conn slots
after_scan wait_res (none, slots) later = if below_zero wait_res then null else later

unfoldable pub psql_pool_acquire : ℕ → List Turn → Answer
psql_pool_acquire thread [] = waiting
psql_pool_acquire thread (t ∷ ts) =
    let later = psql_pool_acquire thread ts in
    if below_zero t.lock_res
    then null
    else after_scan t.wait_res (find_free t.good thread t.slots) later

-- psql_pool_release under the lock: the last slot with the connection, and EINVAL if there is none.
abbrev free_slot : Slot → Option (List Slot) → ℕ → List Slot → Option (List Slot)
free_slot s (some rest) conn ss = some (s ∷ rest)
free_slot s none conn ss =
    if s.conn == conn then some (record s { avail = available } ∷ ss) else none

unfoldable pub free_last : ℕ → List Slot → Option (List Slot)
free_last conn [] = none
free_last conn (s ∷ ss) = free_slot s (free_last conn ss) conn ss

abbrev released : Option (List Slot) → Ret (List Slot)
released none = err einval
released (some slots) = ok slots

unfoldable pub psql_pool_release : ℕ → List Slot → ℕ → Ret (List Slot)
psql_pool_release lock_res slots conn =
    if below_zero lock_res then err (2 ^ 32 - lock_res) else released (free_last conn slots)
