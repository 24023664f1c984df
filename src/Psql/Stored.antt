-- ===== src/Psql/Stored.antt =====
-- psql_read_meta and psql_write_meta on the row of an entry, and one after the other.
use pgfuse.Base.{
  is_negative, false, ℕ, ◌*◌, ◌/◌, ◌^◌, ◌≤◌, ◌<◌, ◌≡◌, refl, sym, ap, ◌∙◌, Bool, true, List, [],
  ◌∷◌, arith, length, filterb, countb, updateb, map, sext32_small,
}
use pgfuse.Wire.{
  ByteOrder, Timespec, postgres_epoch_date, convert_to_timestamp, convert_from_timestamp,
}
use pgfuse.Wire.Laws.{
  convert_from_timestamp-convert_to_timestamp, column64-param64, convert_to_timestamp-lt,
}
use pgfuse.Db.{DirRow, Db, has_id, exists_id, select_meta, update_meta}
use pgfuse.Session.{ok, Env, ◌>>◌}
use pgfuse.Session.Runs.{Answers, Runs, Runs-pure, Runs-gets, Runs-bind, Runs-execute, Runs-select}
use pgfuse.Psql.Meta.{
  PgMeta, to_meta, set_meta, one_row, got_time, sent_time, psql_read_meta, psql_write_meta,
}

pub length-filterb : {A : Type 0} (p : A → Bool) (xs : List A) → length (filterb p xs) ≡ countb p xs
length-filterb p [] = refl
length-filterb p (x ∷ xs) = ground (arith, length-filterb p xs)

pub row_there : (id : ℕ) (r : DirRow) (d : Db) → select_meta id d ≡ r ∷ [] → exists_id id d ≡ true
unfolding select_meta
row_there id r d one =
    let counted : 1 ≡ countb (has_id id) d.dir =
      sym (ap length one) ∙ length-filterb (has_id id) d.dir in
    ground (arith, counted)

module _ {env : Env} (answers : Answers env) where
  pub psql_read_meta-Runs :
      (id : ℕ) (r : DirRow) (d : Db)
      → id < 2 ^ 31
      → select_meta id d ≡ r ∷ []
      → Runs env (psql_read_meta id) d (ok (to_meta env.order r)) d
  unfolding psql_read_meta one_row
  psql_read_meta-Runs id r d small one =
      let positive : is_negative id ≡ false = ground arith in
      Runs-bind _ _ (Runs-select answers _ d) (
        simp (sext32_small id small, one, positive)
          (Runs-bind _ _ (Runs-pure r d) (Runs-bind _ _ (Runs-gets _ d) (Runs-pure _ d))))

  pub psql_write_meta-Runs :
      (id : ℕ) (m : PgMeta) (d : Db)
      → Runs env (psql_write_meta id m) d (ok tt) (update_meta id (set_meta env.order m) d)
  unfolding psql_write_meta
  psql_write_meta-Runs id m d = Runs-bind _ _ (Runs-gets _ d) (Runs-execute answers _ d refl)

pub filterb-updateb :
    {A : Type 0} (p : A → Bool) (f : A → A) (xs : List A)
    → ((x : A) → p (f x) ≡ p x)
    → filterb p (updateb p f xs) ≡ map f (filterb p xs)
filterb-updateb p f [] h = refl
filterb-updateb p f (x ∷ xs) h = ground (arith, filterb-updateb p f xs h, h x)

-- A time that the columns hold: of the year 2000 or later, and far from the end of int64_t.
pub record IsRecent (t : Timespec) : Type 0 where
  pub after : postgres_epoch_date ≤ t.tv_sec
  pub far : t.tv_sec < 2 ^ 44
  pub nano : t.tv_nsec < 1000000000

abbrev pub cut : Timespec → Timespec
cut t = record t { tv_nsec = t.tv_nsec / 1000 * 1000 }

got-sent : (o : ByteOrder) (t : Timespec) → IsRecent t → got_time o (sent_time o t) ≡ cut t
got-sent o t recent =
    ap (convert_from_timestamp o)
      (column64-param64 o (convert_to_timestamp o t) (convert_to_timestamp-lt o t))
    ∙ convert_from_timestamp-convert_to_timestamp o t recent.after recent.far recent.nano

-- The metadata as the columns hold it: times in microseconds, and the parent is not written.
abbrev pub kept : ByteOrder → DirRow → PgMeta → PgMeta
kept o r m = record m {
  ctime = cut m.ctime;
  mtime = cut m.mtime;
  atime = cut m.atime;
  parent_id = (to_meta o r).parent_id;
}

to_meta-set_meta :
    (o : ByteOrder) (r : DirRow) (m : PgMeta)
    → IsRecent m.ctime
    → IsRecent m.mtime
    → IsRecent m.atime
    → to_meta o (set_meta o m r) ≡ kept o r m
unfolding to_meta set_meta
to_meta-set_meta o r m c mt a =
    simp (got-sent o m.ctime c, got-sent o m.mtime mt, got-sent o m.atime a) refl

pub select-update_meta :
    (o : ByteOrder) (id : ℕ) (m : PgMeta) (r : DirRow) (d : Db)
    → select_meta id d ≡ r ∷ []
    → select_meta id (update_meta id (set_meta o m) d) ≡ set_meta o m r ∷ []
unfolding select_meta update_meta set_meta
select-update_meta o id m r d one =
    filterb-updateb (has_id id) (set_meta o m) d.dir (λ x. refl) ∙ ap (map (set_meta o m)) one

-- Inside a transaction, while no statement fails, metadata that is written to the one row of an id
-- and read again is the same, with its times cut to microseconds and with the parent of the row, if
-- the times are of the year 2000 or later and the id fits into an integer.
pub psql_read_meta-psql_write_meta :
    (env : Env) (answers : Answers env) (id : ℕ) (m : PgMeta) (r : DirRow) (d : Db)
    → id < 2 ^ 31
    → IsRecent m.ctime
    → IsRecent m.mtime
    → IsRecent m.atime
    → select_meta id d ≡ r ∷ []
    → Runs env
        (psql_write_meta id m >> psql_read_meta id)
        d
        (ok (kept env.order r m))
        (update_meta id (set_meta env.order m) d)
psql_read_meta-psql_write_meta env answers id m r d small c mt a one =
    Runs-bind _ _ (psql_write_meta-Runs answers id m d) (
      rw (sym (to_meta-set_meta env.order r m c mt a)) (
        psql_read_meta-Runs answers id (set_meta env.order m r) _ small
          (select-update_meta env.order id m r d one)))
