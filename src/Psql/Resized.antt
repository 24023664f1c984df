-- ===== src/Psql/Resized.antt =====
-- psql_write_meta, pgsql.c, lines 242-306, after psql_read_meta: a row that only gets another size.
use pgfuse.Base.{ℕ, ◌^◌, ◌<◌, ◌≡◌, ◌≢◌, refl, ap, ◌∙◌, List, [], ◌∷◌, arith, filterb, updateb}
use pgfuse.Wire.{ByteOrder, param64, column64}
use pgfuse.Wire.Laws.{convert_to_timestamp-convert_from_timestamp, param64-column64, column64-lt}
use pgfuse.Db.{DirRow, Db, has_id, select_meta, update_meta}
use pgfuse.Psql.Meta.{to_meta, set_meta, got_time, sent_time}
use pgfuse.Psql.Stored.{select-update_meta}

-- The times of a row are bigint patterns.
pub record HasTimes (r : DirRow) : Type 0 where
  pub ctime : r.ctime < 2 ^ 64
  pub mtime : r.mtime < 2 ^ 64
  pub atime : r.atime < 2 ^ 64

-- The row of `i` has the size `n` and is as it was but for that; so are the rows of all other ids.
pub record Resized (i n : ℕ) (r : DirRow) (d d' : Db) : Type 0 where
  pub one : select_meta i d' ≡ record r { size = n } ∷ []
  pub others : (j : ℕ) → i ≢ j → select_meta j d' ≡ select_meta j d

sent-got : (o : ByteOrder) (t : ℕ) → t < 2 ^ 64 → sent_time o (got_time o t) ≡ t
sent-got o t h =
    ap (param64 o)
      (convert_to_timestamp-convert_from_timestamp o (column64 o t) (column64-lt o t h))
    ∙ param64-column64 o t h

set_meta-to_meta :
    (o : ByteOrder) (r : DirRow) (n : ℕ)
    → HasTimes r
    → set_meta o (record (to_meta o r) { size = n }) r ≡ record r { size = n }
unfolding set_meta to_meta
set_meta-to_meta o r n h =
    simp (sent-got o r.ctime h.ctime, sent-got o r.mtime h.mtime, sent-got o r.atime h.atime) refl

filterb-updateb_other :
    (i j : ℕ) (f : DirRow → DirRow) (xs : List DirRow)
    → i ≢ j
    → ((x : DirRow) → (f x).id ≡ x.id)
    → filterb (has_id j) (updateb (has_id i) f xs) ≡ filterb (has_id j) xs
filterb-updateb_other i j f [] other same = refl
filterb-updateb_other i j f (x ∷ xs) other same =
    ground (arith, filterb-updateb_other i j f xs other same, same x)

pub update_meta-Resized :
    (o : ByteOrder) (i n : ℕ) (r : DirRow) (d t : Db)
    → HasTimes r
    → select_meta i d ≡ r ∷ []
    → t.dir ≡ d.dir
    → Resized i n r d (update_meta i (set_meta o (record (to_meta o r) { size = n })) t)
unfolding set_meta update_meta select_meta
update_meta-Resized o i n r d t times one same = record {
  one =
      (unfold select_meta update_meta set_meta in
        select-update_meta o i (record (to_meta o r) { size = n }) r t (rw same one))
      ∙ ap (λ x. x ∷ []) (unfold set_meta in set_meta-to_meta o r n times);
  others =
      λ j other. filterb-updateb_other i j _ t.dir other (λ x. refl) ∙ ap (filterb (has_id j)) same;
}
