-- ===== src/Fuse/FileSpec/Rows.antt =====
-- The row and the blocks of a file after psql_write_buf or psql_truncate and psql_write_meta.
use pgfuse.Base.{ℕ, ◌+◌, ◌%◌, ◌^◌, ◌<◌, ◌≡◌, refl, ◌∙◌, List, [], ◌∷◌, arith, ==-ne, ==-refl}
use pgfuse.Wire.{ByteOrder}
use pgfuse.Db.{Db, select_meta, update_meta}
use pgfuse.Store.{content, IsStored}
use pgfuse.Psql.Meta.{PgMeta, to_meta, set_meta}
use pgfuse.Psql.Stored.{select-update_meta}
use pgfuse.Psql.Data.Written.{Written}
use pgfuse.Psql.Data.Cut.{Truncated}
use pgfuse.Fuse.FileIo.{grown}
use pgfuse.Fuse.FileSpec.{File, write_at, cut_to, apply, Represents, SameOthers}

module _ (o : ByteOrder) (block_size i : ℕ) (d t : Db) (f : File)
    (represents : Represents block_size i d f) where
  open represents use {one, sized}

  written_row :
      (m : PgMeta)
      → t.dir ≡ d.dir
      → select_meta i (update_meta i (set_meta o m) t) ≡ set_meta o m represents.row ∷ []
  unfolding select_meta
  written_row m same = select-update_meta o i m represents.row t (rw same one)

  IsStored-meta :
      (m : PgMeta) → IsStored block_size t → IsStored block_size (update_meta i (set_meta o m) t)
  unfolding update_meta
  IsStored-meta m h = record { unique = h.unique; full = h.full }

  content_meta :
      (m : PgMeta) (j p : ℕ)
      → content block_size (update_meta i (set_meta o m) t) j p ≡ content block_size t j p
  unfolding update_meta
  content_meta m j p = refl

  pub Written-Represents :
      (buf : List ℕ) (size offset : ℕ)
      → offset + size < 2 ^ 61
      → Written block_size i offset size buf d t
      → Represents block_size i
          (update_meta i
            (set_meta o (grown (to_meta o represents.row) ((offset + size) % 2 ^ 64)))
            t)
          (apply (write_at buf size offset) f)
  unfolding to_meta set_meta
  Written-Represents buf size offset small w =
      let m = grown (to_meta o represents.row) ((offset + size) % 2 ^ 64) in
      record {
        stored = IsStored-meta m w.stored;
        row = set_meta o m represents.row;
        one = written_row m w.same_dir;
        sized = ground (arith, sized);
        bytes = λ p lt.
            content_meta m i p ∙ w.bytes i p ∙ ground (arith, ==-refl i, represents.bytes p lt);
      }

  pub Written-SameOthers :
      (buf : List ℕ) (size offset : ℕ) (m : PgMeta)
      → Written block_size i offset size buf d t
      → SameOthers block_size i d (update_meta i (set_meta o m) t)
  Written-SameOthers buf size offset m w j p other lt =
      content_meta m j p ∙ w.bytes j p ∙ ground (arith, ==-ne i j other)

  pub Truncated-Represents :
      (offset : ℕ) (m : PgMeta)
      → m.size ≡ offset
      → Truncated block_size i offset d t
      → Represents block_size i (update_meta i (set_meta o m) t) (apply (cut_to offset) f)
  unfolding set_meta
  Truncated-Represents offset m e w = record {
    stored = IsStored-meta m w.stored;
    row = set_meta o m represents.row;
    one = written_row m w.same_dir;
    sized = e;
    bytes = λ p lt.
        content_meta m i p ∙ w.bytes i p lt ∙ ground (arith, ==-refl i, represents.bytes p lt);
  }

  pub Truncated-SameOthers :
      (offset : ℕ) (m : PgMeta)
      → Truncated block_size i offset d t
      → SameOthers block_size i d (update_meta i (set_meta o m) t)
  Truncated-SameOthers offset m w j p other lt =
      content_meta m j p ∙ w.bytes j p lt ∙ ground (arith, ==-ne i j other)

module _ (o : ByteOrder) (block_size i : ℕ) (d : Db) where
  -- The metadata written once more.
  pub meta-Represents :
      (f : File) (m : PgMeta)
      → m.size ≡ f.size
      → Represents block_size i d f
      → Represents block_size i (update_meta i (set_meta o m) d) f
  unfolding set_meta update_meta
  meta-Represents f m e h = record {
    stored = record { unique = h.stored.unique; full = h.stored.full };
    row = set_meta o m h.row;
    one = select-update_meta o i m h.row d h.one;
    sized = e;
    bytes = h.bytes;
  }

  pub meta-SameOthers :
      (t : Db) (m : PgMeta)
      → SameOthers block_size i d t
      → SameOthers block_size i d (update_meta i (set_meta o m) t)
  unfolding update_meta
  meta-SameOthers t m h = h
