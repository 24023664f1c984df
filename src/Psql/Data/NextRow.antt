-- ===== src/Psql/Data/NextRow.antt =====
-- One round of psql_read_buf: which row stands for a block, and which rows are left.
use pgfuse.Base.{
  ℕ, ◌+◌, ◌^◌, ◌≤◌, ◌<◌, ◌≡◌, ◌≢◌, ◌⊎◌, ◌∙◌, sym, ap, refl, true, false, none, some, List, [], ◌∷◌,
  arith, ltb, length, byte_or, byte_or-replicate, length-replicate, Bool-cases, inl, inr, ==-refl,
  slt64,
}
use pgfuse.Wire.{ByteOrder, little, big, ntohl, column64}
use pgfuse.Wire.Laws.{ntohl-column64}
use pgfuse.Db.{DataRow}
use pgfuse.Store.{find_block, byte_in}
use pgfuse.Psql.Data.{next_data}
use pgfuse.Psql.Data.Rows.{Sorted, Sorted-none}

-- On a big-endian host every block number is read right; on a little-endian one it is read as 0, so
-- that the blocks have to be there.
abbrev pub Present : ByteOrder → ℕ → ℕ → ℕ → List DataRow → Type 0
Present o i lo hi rows = (o ≡ big) ⊎ ((c : ℕ) → lo ≤ c → c ≤ hi → find_block i c rows ≢ none)

-- `block_no < db_block_no` says that the row is of a later block, on every host.
read_less :
    (o : ByteOrder) (b n : ℕ)
    → b < 2 ^ 32
    → n < 2 ^ 32
    → slt64 b (ntohl o (column64 o n)) ≡ true
    → b < n
read_less little b n hb hn e = ground (arith, e, ntohl-column64 little n (omega arith))
read_less big b n hb hn e = ground (arith, e, ntohl-column64 big n (omega arith))

read_here :
    (o : ByteOrder) (i b hi : ℕ) (r : DataRow) (rows : List DataRow)
    → b ≤ r.block_no
    → r.block_no ≤ hi
    → hi < 2 ^ 32
    → b ≤ hi
    → Sorted i r.block_no hi (r ∷ rows)
    → Present o i b hi (r ∷ rows)
    → slt64 b (ntohl o (column64 o r.block_no)) ≡ false
    → r.block_no ≡ b
read_here o i b hi r rows l u small le h (inr there) e = elim (Bool-cases (ltb b r.block_no)) [
  | inl less ↦
      absurd (there b (omega arith) le (Sorted-none i r.block_no hi b (r ∷ rows) h (ground arith)))
  | inr not_less ↦ ground arith
]
read_here o i b hi r rows l u small le h (inl host) e =
    let plain : slt64 b (ntohl big (column64 big r.block_no)) ≡ false = rw host at e in
    ground (arith, plain, ntohl-column64 big r.block_no (omega arith))

module _ (o : ByteOrder) (block_size i hi : ℕ) (hi_small : hi < 2 ^ 32) where
  -- The data for block `b` and the rows that are left.
  pub record IsBlock (b : ℕ) (rows : List DataRow) : Type 0 where
    pub all : length (next_data o block_size b rows).0 ≡ block_size
    pub same :
        (k : ℕ) → byte_or (next_data o block_size b rows).0 k ≡ byte_in (find_block i b rows) k
    pub sorted : Sorted i (b + 1) hi (next_data o block_size b rows).1
    pub later :
        (c : ℕ) → b < c → find_block i c (next_data o block_size b rows).1 ≡ find_block i c rows

  pub next_data-IsBlock :
      (b : ℕ) (rows : List DataRow)
      → b ≤ hi
      → Sorted i b hi rows
      → Present o i b hi rows
      → ((c : ℕ) (xs : List ℕ) → find_block i c rows ≡ some xs → length xs ≡ block_size)
      → IsBlock b rows
  unfolding next_data
  next_data-IsBlock b [] le h present full = record {
    all = length-replicate block_size 0;
    same = λ k. byte_or-replicate block_size k;
    sorted = tt;
    later = λ c less. refl;
  }
  next_data-IsBlock b (r ∷ rows) le ((d, l, u), h) present full =
      elim (Bool-cases (slt64 b (ntohl o (column64 o r.block_no)))) [
        | inl e ↦
            let less = read_less o b r.block_no (omega arith) (omega arith) e in
            let gone = Sorted-none i r.block_no hi b (r ∷ rows) ((d, omega arith, u), h) less in
            record {
              all = rw e (length-replicate block_size 0);
              same = λ k. rw e (byte_or-replicate block_size k ∙ ap (λ f. byte_in f k) (sym gone));
              sorted = rw e ((d, omega (arith, less), u), h);
              later = λ c le'. rw e refl;
            }
        | inr e ↦
            let here : r.block_no ≡ b =
              read_here o i b hi r rows l u (omega arith) le ((d, omega arith, u), h) present e in
            let found : find_block i b (r ∷ rows) ≡ some r.bytes =
              ground (arith, here, d, ==-refl i) in
            record {
              all = rw e (full b r.bytes found);
              same = λ k. rw e (ap (λ f. byte_in f k) (sym found));
              sorted = rw e (rw here at h);
              later = λ c less. rw e (ground (arith, here));
            }
      ]
