-- ===== src/Fuse/FileSpec.antt =====
-- What the hooks promise of an open file: an array of bytes with a size. The hooks are pgfuse_write
-- and pgfuse_ftruncate, pgfuse.c, lines 738-797 and 886-936.
use pgfuse.Base.{
  ℕ, ◌+◌, ◌-◌, ◌^◌, ◌≤◌, ◌<◌, ◌≡◌, ◌≢◌, ◌&&◌, List, [], ◌∷◌, leb, ltb, if◌then◌else◌, length,
  byte_or,
}
use pgfuse.Block.Bounds.{InRange}
use pgfuse.Db.{DirRow, Db, select_meta}
use pgfuse.Session.{M, pure, ◌>>=◌, ◌>>◌}
use pgfuse.Store.{content, IsStored}
use pgfuse.Fuse.Context.{PgFuseData}
use pgfuse.Fuse.Oper.{Call, perform}
pub mod Rows
pub mod Refines
pub mod Reads

pub record File : Type 0 where
  pub size : ℕ
  pub byte : ℕ → ℕ

pub data Request : Type 0 where
  write_at : (buf : List ℕ) (size offset : ℕ) → Request
  cut_to : (offset : ℕ) → Request

-- The file after a request.
abbrev pub apply : Request → File → File
apply (write_at buf size offset) f = record {
  size = if ltb f.size (offset + size) then offset + size else f.size;
  byte = λ p. if leb offset p && ltb p (offset + size) then byte_or buf (p - offset) else f.byte p;
}
apply (cut_to offset) f = record { size = offset; byte = λ p. if leb offset p then 0 else f.byte p }

abbrev pub apply_all : List Request → File → File
apply_all [] f = f
apply_all (q ∷ qs) f = apply_all qs (apply q f)

-- The call of the file system, through the handle of the file.
abbrev pub call_of : ℕ → Request → Call
call_of fh (write_at buf size offset) = Call.write fh buf size offset
call_of fh (cut_to offset) = Call.ftruncate fh offset

-- The calls one after the other, up to the first that fails.
unfoldable pub serve : PgFuseData → ℕ → List Request → M (Unit {0})
serve d fh [] = pure tt
serve d fh (q ∷ qs) = do perform d (call_of fh q); serve d fh qs

-- A request that is within range; a cut leaves at least one byte.
abbrev pub IsFit : ℕ → Request → Type 0
IsFit block_size (write_at buf size offset) = InRange block_size offset size × (size ≤ length buf)
IsFit block_size (cut_to offset) = InRange block_size 0 offset × (0 < offset)

abbrev pub AllFit : ℕ → List Request → Type 0
AllFit block_size [] = Unit {0}
AllFit block_size (q ∷ qs) = IsFit block_size q × AllFit block_size qs

-- The tables hold the file `f` under the id `i`.
pub record Represents (block_size i : ℕ) (d : Db) (f : File) : Type 0 where
  pub stored : IsStored block_size d
  pub row : DirRow
  pub one : select_meta i d ≡ row ∷ []
  pub sized : row.size ≡ f.size
  pub bytes : (p : ℕ) → p < 2 ^ 62 → content block_size d i p ≡ f.byte p

-- The bytes of all files but `i` are the same.
abbrev pub SameOthers : ℕ → ℕ → Db → Db → Type 0
SameOthers block_size i d d' =
    (j p : ℕ) → i ≢ j → p < 2 ^ 62 → content block_size d' j p ≡ content block_size d j p
