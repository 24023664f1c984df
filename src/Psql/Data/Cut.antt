-- ===== src/Psql/Data/Cut.antt =====
-- The DELETE and the UPDATE of psql_truncate on the bytes of a file.
use native.Mathlib.Nat.{div-add-mod', mod-lt}
use pgfuse.Base.{
  ℕ, ◌+◌, ◌-◌, ◌*◌, ◌/◌, ◌%◌, ◌^◌, ◌≤◌, ◌<◌, ◌≡◌, ◌∙◌, sym, ap, refl, Bool, not, ◌&&◌, ◌||◌, Option,
  none, some, List, [], ◌∷◌, ◌++◌, arith, ◌==◌, ltb, leb, if◌then◌else◌, length, filterb, countb,
  updateb, byte_or, take, replicate, byte_or-append, byte_or-take, byte_or-replicate, length-take,
  length-append, length-replicate, Bool-cases, inl, inr, ==-refl, slt64, slt64-eq-ltb,
}
use mathlib.Core.Option
use pgfuse.Db.{DataRow, Db, is_block, substring}
use pgfuse.Store.{
  find_block, byte_in, content, IsStored, set_bytes, find_block-update, countb-update,
}

-- The rows that the DELETE leaves.
abbrev pub keeps : ℕ → ℕ → DataRow → Bool
keeps i b r = not ((r.dir_id == i) && slt64 b r.block_no)

module _ (i b : ℕ) where
  find_block-filterb :
      (j c : ℕ) (rs : List DataRow)
      → find_block j c (filterb (keeps i b) rs)
        ≡ (if (i == j) && slt64 b c then none else find_block j c rs)
  find_block-filterb j c [] = ground arith
  find_block-filterb j c (r ∷ rs) = elim (Bool-cases (is_block j c r)) [
    | inl e ↦
        let same_j : j ≡ r.dir_id = ground arith in
        let same_c : c ≡ r.block_no = ground arith in
        rw (same_j, same_c)
          (ground (
            arith,
            find_block-filterb r.dir_id r.block_no rs,
            ==-refl r.dir_id,
            ==-refl r.block_no,
          ))
    | inr e ↦ ground (arith, find_block-filterb j c rs, e)
  ]

  pub countb-filterb :
      (j c : ℕ) (rs : List DataRow)
      → countb (is_block j c) (filterb (keeps i b) rs) ≤ countb (is_block j c) rs
  countb-filterb j c [] = omega arith
  countb-filterb j c (r ∷ rs) = ground (arith, countb-filterb j c rs)

-- The UPDATE text of psql_truncate.
abbrev padded : ℕ → ℕ → List ℕ → List ℕ
padded block_size to_len old = substring old 1 to_len ++ replicate (block_size - to_len) 0

module _ (block_size to_len : ℕ) (fits : to_len ≤ block_size) where
  byte_or-padded :
      (old : List ℕ) (k : ℕ)
      → length old ≡ block_size
      → byte_or (padded block_size to_len old) k ≡ (if leb to_len k then 0 else byte_or old k)
  byte_or-padded old k e =
      simp (byte_or-append, byte_or-take, byte_or-replicate, length-take to_len old (omega arith))
        (ground arith)

  length-padded :
      (old : List ℕ) → length old ≡ block_size → length (padded block_size to_len old) ≡ block_size
  length-padded old e = omega (
    arith,
    length-append (take to_len old) (replicate (block_size - to_len) 0),
    length-take to_len old (omega arith),
    length-replicate {A = ℕ} (block_size - to_len) 0,
  )

-- What psql_truncate to `len` makes of the bytes of file `i`.
pub record Truncated (block_size i len : ℕ) (d d' : Db) : Type 0 where
  pub stored : IsStored block_size d'
  pub same_dir : d'.dir ≡ d.dir
  pub bytes :
      (j p : ℕ)
      → p < 2 ^ 62
      → content block_size d' j p ≡ (if (i == j) && leb len p then 0 else content block_size d j p)

abbrev pub truncated : ℕ → ℕ → ℕ → ℕ → Db → Db
truncated block_size i b to_len d = record d {
  blocks =
      updateb (is_block i b) (set_bytes (padded block_size to_len)) (filterb (keeps i b) d.blocks);
}

module _ (block_size i b to_len : ℕ) (d : Db) (positive : 0 < block_size)
    (fits : to_len ≤ block_size) (b_small : b < 2 ^ 62) (h : IsStored block_size d) where
  abbrev left : List DataRow
  left = filterb (keeps i b) d.blocks

  full_left :
      (j c : ℕ) (bytes : List ℕ) → find_block j c left ≡ some bytes → length bytes ≡ block_size
  full_left j c bytes q = elim (Bool-cases ((i == j) && slt64 b c)) [
    | inl e ↦
        let gone : none ≡ some bytes = rw e at (sym (find_block-filterb i b j c d.blocks) ∙ q) in cc
    | inr e ↦ h.full j c bytes (rw e at (sym (find_block-filterb i b j c d.blocks) ∙ q))
  ]

  byte_in-mapped :
      (found : Option (List ℕ)) (k : ℕ)
      → ((xs : List ℕ) → found ≡ some xs → length xs ≡ block_size)
      → byte_in (Option.map (padded block_size to_len) found) k
        ≡ (if leb to_len k then 0 else byte_in found k)
  byte_in-mapped none k full = ground arith
  byte_in-mapped (some xs) k full = byte_or-padded block_size to_len fits xs k (full xs refl)

  mapped_full :
      (bytes : List ℕ) (found : Option (List ℕ))
      → ((xs : List ℕ) → found ≡ some xs → length xs ≡ block_size)
      → Option.map (padded block_size to_len) found ≡ some bytes
      → length bytes ≡ block_size
  mapped_full bytes none full q = cc
  mapped_full bytes (some xs) full q =
      let same : padded block_size to_len xs ≡ bytes = cc in
      sym (ap length same) ∙ length-padded block_size to_len fits xs (full xs refl)

  full_after :
      (j c : ℕ) (bytes : List ℕ)
      → find_block j c (truncated block_size i b to_len d).blocks ≡ some bytes
      → length bytes ≡ block_size
  full_after j c bytes q = elim (Bool-cases ((i == j) && (b == c))) [
    | inl e ↦
        mapped_full bytes (find_block j c left) (λ xs. full_left j c xs)
          (rw e at (sym (find_block-update i b (padded block_size to_len) j c left) ∙ q))
    | inr e ↦
        full_left j c bytes
          (rw e at (sym (find_block-update i b (padded block_size to_len) j c left) ∙ q))
  ]

  at_block :
      (j c k : ℕ)
      → c < 2 ^ 62
      → byte_in (find_block j c (truncated block_size i b to_len d).blocks) k ≡ (
          if (i == j) && (ltb b c || ((b == c) && leb to_len k))
          then 0
          else byte_in (find_block j c d.blocks) k)
  at_block j c k c_small = elim (Bool-cases ((i == j) && (b == c))) [
    | inl e ↦
        rw (find_block-update i b (padded block_size to_len) j c left, e)
          (rw
            (
              byte_in-mapped (find_block j c left) k (λ xs. full_left j c xs),
              find_block-filterb i b j c d.blocks,
              slt64-eq-ltb b c (omega arith) (omega arith),
            )
            (ground (arith, e)))
    | inr e ↦
        rw (find_block-update i b (padded block_size to_len) j c left, e)
          (rw (find_block-filterb i b j c d.blocks, slt64-eq-ltb b c (omega arith) (omega arith))
            (ground (arith, e)))
  ]

  further : (a q : ℕ) → a < q → a * block_size + block_size ≤ q * block_size
  further a q less = grind arith

  after_end :
      (p : ℕ)
      → ltb b (p / block_size) || ((b == p / block_size) && leb to_len (p % block_size))
        ≡ leb (b * block_size + to_len) p
  after_end p = ground (
    arith,
    div-add-mod' p block_size,
    mod-lt p positive,
    further b (p / block_size),
    further (p / block_size) b,
  )

  div_small : (p : ℕ) → p < 2 ^ 62 → p / block_size < 2 ^ 62
  div_small p small = grind arith

  pub truncated-Truncated :
      Truncated block_size i (b * block_size + to_len) d (truncated block_size i b to_len d)
  truncated-Truncated = record {
    stored = record {
      unique = λ j c.
          rw (countb-update i b (padded block_size to_len) j c left)
            (omega (arith, countb-filterb i b j c d.blocks, h.unique j c));
      full = full_after;
    };
    same_dir = refl;
    bytes = λ j p small.
        rw (at_block j (p / block_size) (p % block_size) (div_small p small), after_end p) refl;
  }
