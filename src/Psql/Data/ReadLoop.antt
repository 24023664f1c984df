-- ===== src/Psql/Data/ReadLoop.antt =====
-- The loop of psql_read_buf: one block after the other, with zeros for a missing one.
use native.Mathlib.Nat.{div-add-mod', mod-lt}
use pgfuse.Base.{
  ℕ, zero, suc, ◌+◌, ◌-◌, ◌*◌, ◌/◌, ◌%◌, ◌^◌, ◌≤◌, ◌<◌, ◌≡◌, ◌∙◌, sym, ap, refl, ◌&&◌, Option, none,
  some, List, arith, ◌==◌, ltb, leb, if◌then◌else◌, length, byte_or, Bool-cases, inl, inr,
}
use pgfuse.Wire.{ByteOrder}
use pgfuse.Db.{DataRow}
use pgfuse.Block.{PgDataInfo}
use pgfuse.Store.{find_block, byte_in}
use pgfuse.Psql.Data.{memcpy, next_data, copy_block, read_loop}
use pgfuse.Psql.Data.Rows.{Sorted, Sorted-none}
use pgfuse.Psql.Data.NextRow.{Present, IsBlock, next_data-IsBlock}
use pgfuse.Psql.Data.Copy.{memcpy_inside, further, div_at, first_copy, Aligned}

module _ (o : ByteOrder) (block_size i : ℕ) (info : PgDataInfo) (aligned : Aligned block_size info)
    (small : info.to_block < 2 ^ 32) where
  abbrev len_of : ℕ → ℕ
  len_of b = if b == info.to_block then info.to_len else block_size

  gap : (a b : ℕ) → a ≤ b → (b - a) * block_size + a * block_size ≡ b * block_size
  gap a b h =
      let apart : b ≡ b - a + a = omega arith in
      let spread : (b - a) * block_size + a * block_size ≡ (b - a + a) * block_size = omega arith in
      spread ∙ ap (λ x. x * block_size) (sym apart)

  abbrev total : ℕ
  total = (info.to_block - info.from_block) * block_size + info.to_len

  len_of-le : (b : ℕ) → len_of b ≤ block_size
  len_of-le b = ground (arith, aligned.last_fits)

  copy_block_lem :
      (b : ℕ) (bytes : List ℕ) (dst : ℕ) (buf : List ℕ)
      → info.from_block ≤ b
      → b ≤ info.to_block
      → copy_block block_size info b bytes dst buf ≡ (memcpy buf dst bytes 0 (len_of b), len_of b)
  unfolding copy_block
  copy_block_lem b bytes dst buf from to = elim (Bool-cases (b == info.from_block)) [
    | inl e ↦
        let whole : info.from_len ≡ len_of b =
          ground (arith, e, aligned.ordered, aligned.one, aligned.many) in
        let bound : len_of b < 2 ^ 64 = omega (arith, len_of-le b, aligned.block_small) in
        rw e (
          first_copy buf bytes dst info.from_offset info.from_len (len_of b) aligned.at_start whole
            bound)
    | inr e ↦ ground (arith, e)
  ]

  further_total :
      (b copied : ℕ)
      → b + 0 ≡ info.to_block
      → copied + info.from_block * block_size ≡ b * block_size
      → copied + info.to_len ≡ total
  further_total b copied last at =
      let same : b ≡ info.to_block = omega arith in
      let spread : (info.to_block - info.from_block) * block_size + info.from_block * block_size
          ≡ info.to_block * block_size =
        gap info.from_block info.to_block aligned.ordered in
      omega (arith, ap (λ x. x * block_size) same, spread)

  later_total :
      (b copied rounds : ℕ)
      → b + suc rounds ≡ info.to_block
      → copied + info.from_block * block_size ≡ b * block_size
      → copied + block_size ≤ total
  later_total b copied rounds last at = omega (
    arith,
    further block_size b info.to_block (omega arith),
    gap info.from_block info.to_block aligned.ordered,
  )

  abbrev place : List DataRow → ℕ → ℕ
  place rows k =
      byte_in (find_block i ((info.from_block * block_size + k) / block_size) rows)
        ((info.from_block * block_size + k) % block_size)

  -- The buffer after the rounds that are left.
  abbrev Filled : List DataRow → ℕ → List ℕ → List ℕ → Type 0
  Filled rows copied buf buf' =
      (length buf' ≡ length buf)
      × ((k : ℕ)
          → byte_or buf' k ≡ (if leb copied k && ltb k total then place rows k else byte_or buf k))

  -- The bytes of one block.
  placed :
      (b : ℕ) (rows : List DataRow) (copied k : ℕ)
      → copied + info.from_block * block_size ≡ b * block_size
      → copied ≤ k
      → k < copied + block_size
      → place rows k ≡ byte_in (find_block i b rows) (k - copied)
  placed b rows copied k at low high =
      let (q, r) =
        div_at block_size (info.from_block * block_size + k) b aligned.positive (omega arith)
          (omega arith) in
      let within : (info.from_block * block_size + k) % block_size ≡ k - copied =
        omega (arith, r) in
      rw (q, within) refl

  -- The bytes of the blocks after it.
  placed_later :
      (b : ℕ) (rows : List DataRow) (copied k : ℕ)
      (nx : IsBlock o block_size i info.to_block small b rows)
      → copied + info.from_block * block_size ≡ b * block_size
      → copied + block_size ≤ k
      → place (next_data o block_size b rows).1 k ≡ place rows k
  placed_later b rows copied k nx at low =
      let p = info.from_block * block_size + k in
      let beyond : b < p / block_size = ground (
        arith,
        div-add-mod' p block_size,
        mod-lt p aligned.positive,
        further block_size (p / block_size) b,
        low,
        at,
        ap {A = ℕ} (λ x. x * block_size) (refl {a = b}),
      ) in
      ap (λ f. byte_in f (p % block_size)) (nx.later (p / block_size) beyond)

  module _ (b : ℕ) (rows : List DataRow)
      (nx : IsBlock o block_size i info.to_block small b rows) where
    still_there :
        Present o i b info.to_block rows
        → Present o i (b + 1) info.to_block (next_data o block_size b rows).1
    still_there (inl host) = inl host
    still_there (inr there) =
        inr λ c lo hi q. there c (omega arith) hi (sym (nx.later c (omega arith)) ∙ q)

    full_later :
        ((c : ℕ) (xs : List ℕ) → find_block i c rows ≡ some xs → length xs ≡ block_size)
        → (c : ℕ) (xs : List ℕ) → find_block i c (next_data o block_size b rows).1 ≡ some xs
        → length xs ≡ block_size
    full_later full c xs q = elim (Bool-cases (ltb b c)) [
      | inl e ↦ full c xs (sym (nx.later c (ground arith)) ∙ q)
      | inr e ↦
          let gone : none ≡ some xs =
            sym (
              Sorted-none i (b + 1) info.to_block c (next_data o block_size b rows).1 nx.sorted
                (ground arith))
            ∙ q in
          cc
    ]

  read_loop_step :
      (rounds b : ℕ) (rows : List DataRow) (copied n : ℕ) (buf buf1 : List ℕ)
      → copy_block block_size info b (next_data o block_size b rows).0 copied buf ≡ (some buf1, n)
      → read_loop (suc rounds) o block_size info b rows copied buf
        ≡ read_loop rounds o block_size info
            (b + 1)
            (next_data o block_size b rows).1
            (copied + n)
            buf1
  unfolding read_loop
  read_loop_step rounds b rows copied n buf buf1 e =
      ap
        (λ (m : Option (List ℕ) × ℕ). elim m.0 as (λ x. Option (ℕ × List ℕ)) [
          | none ↦ none
          | some buf' ↦
              read_loop rounds o block_size info (b + 1) (next_data o block_size b rows).1
                (copied + m.1) buf'
        ])
        e

  one_round :
      (rounds b : ℕ) (rows : List DataRow) (copied : ℕ) (buf buf1 : List ℕ)
      → info.from_block ≤ b
      → b ≤ info.to_block
      → memcpy buf copied (next_data o block_size b rows).0 0 (len_of b) ≡ some buf1
      → read_loop (suc rounds) o block_size info b rows copied buf
        ≡ read_loop rounds o block_size info
            (b + 1)
            (next_data o block_size b rows).1
            (copied + len_of b)
            buf1
  one_round rounds b rows copied buf buf1 from to e =
      read_loop_step rounds b rows copied (len_of b) buf buf1 (
        copy_block_lem b (next_data o block_size b rows).0 copied buf from to
        ∙ ap (λ m. (m, len_of b)) e)

  done :
      (b : ℕ) (rows : List DataRow) (copied : ℕ) (buf : List ℕ)
      → read_loop 0 o block_size info b rows copied buf ≡ some (copied, buf)
  unfolding read_loop
  done b rows copied buf = refl

  pub read_loop-Filled :
      (rounds b : ℕ) (rows : List DataRow) (copied : ℕ) (buf : List ℕ)
      → b + rounds ≡ info.to_block
      → info.from_block ≤ b
      → copied + info.from_block * block_size ≡ b * block_size
      → total ≤ length buf
      → Sorted i b info.to_block rows
      → Present o i b info.to_block rows
      → ((c : ℕ) (xs : List ℕ) → find_block i c rows ≡ some xs → length xs ≡ block_size)
      → (buf' : List ℕ) × (read_loop (suc rounds) o block_size info b rows copied buf
          ≡ some (total, buf'))
        × Filled rows copied buf buf'
  read_loop-Filled zero b rows copied buf last from at room sorted present full =
      let nx =
        next_data-IsBlock o block_size i info.to_block small b rows (omega arith) sorted present
          full in
      let here : len_of b ≡ info.to_len = ground (arith, last) in
      let span = further_total b copied last at in
      let sum : copied + len_of b ≡ total = omega (arith, here, span) in
      let (buf', eq, len, bytes) =
        memcpy_inside buf copied (next_data o block_size b rows).0 (len_of b)
          (omega (arith, nx.all, len_of-le b)) (omega (arith, here, span)) in
      (
        buf',
        one_round 0 b rows copied buf buf' from (omega arith) eq
            ∙ done _ _ _ _
            ∙ ap (λ n. some (n, buf')) sum,
        (
          len,
          λ k.
              bytes k
              ∙ ground
                  (arith, here, span, nx.same (k - copied), len_of-le b, placed b rows copied k at),
        ),
      )
  read_loop-Filled (suc rounds) b rows copied buf last from at room sorted present full =
      let nx =
        next_data-IsBlock o block_size i info.to_block small b rows (omega arith) sorted present
          full in
      let here : len_of b ≡ block_size = ground (arith, last) in
      let more = later_total b copied rounds last at in
      let (buf1, eq, len1, bytes1) =
        memcpy_inside buf copied (next_data o block_size b rows).0 (len_of b)
          (omega (arith, nx.all, len_of-le b)) (omega (arith, here, more)) in
      let (buf', eq', (len, bytes)) =
        read_loop-Filled rounds (b + 1) (next_data o block_size b rows).1 (copied + len_of b) buf1
          (omega arith) (omega arith) (omega (arith, here)) (omega (arith, len1)) nx.sorted
          (still_there b rows nx present) (full_later b rows nx full) in
      (
        buf',
        one_round (suc rounds) b rows copied buf buf1 from (omega arith) eq ∙ eq',
        (
          len ∙ len1,
          λ k.
              bytes k
              ∙ ground (
                arith,
                bytes1 k,
                here,
                more,
                nx.same (k - copied),
                placed b rows copied k at,
                placed_later b rows copied k nx at,
              ),
        ),
      )
