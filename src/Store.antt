-- ===== src/Store.antt =====
-- The bytes of a file as the table `data` holds them: which block a byte is in, and what an UPDATE
-- or INSERT of a block does to the bytes. A block that is missing stands for zeros.
use pgfuse.Base.{
  ℕ, ◌+◌, ◌/◌, ◌%◌, ◌≤◌, ◌<◌, ◌≡◌, refl, ◌&&◌, Option, none, some, List, [], ◌∷◌, ◌++◌, arith, ◌==◌,
  if◌then◌else◌, length, countb, updateb, byte_or, Bool-cases, inl, inr,
}
use mathlib.Core.Option
use pgfuse.Db.{DataRow, Db, is_block}

-- The bytes of block `b` of file `i`.
abbrev pub find_block : ℕ → ℕ → List DataRow → Option (List ℕ)
find_block i b [] = none
find_block i b (r ∷ rs) = if is_block i b r then some r.bytes else find_block i b rs

abbrev pub byte_in : Option (List ℕ) → ℕ → ℕ
byte_in none k = 0
byte_in (some bytes) k = byte_or bytes k

-- Byte `p` of file `i`.
abbrev pub content : ℕ → Db → ℕ → ℕ → ℕ
content block_size d i p = byte_in (find_block i (p / block_size) d.blocks) (p % block_size)

-- PRIMARY KEY( dir_id, block_no ), and every block is of the block size.
pub record IsStored (block_size : ℕ) (d : Db) : Type 0 where
  pub unique : (i b : ℕ) → countb (is_block i b) d.blocks ≤ 1
  pub full :
      (i b : ℕ) (bytes : List ℕ) → find_block i b d.blocks ≡ some bytes → length bytes ≡ block_size

abbrev pub set_bytes : (List ℕ → List ℕ) → DataRow → DataRow
set_bytes f r = record r { bytes = f r.bytes }

module _ (i b : ℕ) (f : List ℕ → List ℕ) where
  pub find_block-update :
      (j c : ℕ) (rs : List DataRow)
      → find_block j c (updateb (is_block i b) (set_bytes f) rs)
        ≡ (if (i == j) && (b == c) then Option.map f (find_block j c rs) else find_block j c rs)
  find_block-update j c [] = ground arith
  find_block-update j c (r ∷ rs) = ground (arith, find_block-update j c rs)

  pub countb-update :
      (j c : ℕ) (rs : List DataRow)
      → countb (is_block j c) (updateb (is_block i b) (set_bytes f) rs) ≡ countb (is_block j c) rs
  countb-update j c [] = refl
  countb-update j c (r ∷ rs) = ground (arith, countb-update j c rs)

pub find_block-none :
    (i b : ℕ) (rs : List DataRow) → countb (is_block i b) rs ≡ 0 → find_block i b rs ≡ none
find_block-none i b [] h = refl
find_block-none i b (r ∷ rs) h = ground (arith, find_block-none i b rs)

pub find_block-some :
    (i b : ℕ) (rs : List DataRow)
    → 0 < countb (is_block i b) rs
    → (bytes : List ℕ) × (find_block i b rs ≡ some bytes)
find_block-some i b [] h = absurd (omega arith)
find_block-some i b (r ∷ rs) h = elim (Bool-cases (is_block i b r)) [
  | inl e ↦ (r.bytes, rw e)
  | inr e ↦ let (bytes, q) = find_block-some i b rs (ground arith) in (bytes, rw e q)
]

module _ (q : DataRow) where
  pub find_block-append :
      (j c : ℕ) (rs : List DataRow)
      → countb (is_block q.dir_id q.block_no) rs ≡ 0
      → find_block j c (rs ++ q ∷ [])
        ≡ (if (q.dir_id == j) && (q.block_no == c) then some q.bytes else find_block j c rs)
  find_block-append j c [] h = ground arith
  find_block-append j c (r ∷ rs) h = ground (arith, find_block-append j c rs)

  pub countb-append :
      (j c : ℕ) (rs : List DataRow)
      → countb (is_block j c) (rs ++ q ∷ [])
        ≡ countb (is_block j c) rs + (if (q.dir_id == j) && (q.block_no == c) then 1 else 0)
  countb-append j c [] = ground arith
  countb-append j c (r ∷ rs) = ground (arith, countb-append j c rs)
