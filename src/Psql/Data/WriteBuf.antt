-- ===== src/Psql/Data/WriteBuf.antt =====
-- psql_write_buf: the bytes of the file after it, for any position and length within range.
use pgfuse.Base.{
  ℕ, zero, suc, ◌+◌, ◌-◌, ◌*◌, ◌^◌, ◌≤◌, ◌<◌, ◌≡◌, ◌∙◌, sym, ap, refl, true, false, List, [], ◌∷◌,
  arith, ◌==◌, ltb, if◌then◌else◌, length, drop, length-drop, Bool-cases, inl, inr, ==-eq, ==-refl,
  slt64-eq-ltb,
}
use pgfuse.Db.{Db, exists_id}
use pgfuse.Block.{PgDataInfo, compute_block_info}
use pgfuse.Block.Bounds.{InRange, Covers, compute_block_info-Covers}
use pgfuse.Session.{ok, Env, M, pure, ◌>>=◌}
use pgfuse.Session.Runs.{Answers, Runs, Runs-pure, Runs-bind}
use pgfuse.Store.{IsStored}
use pgfuse.Psql.Path.{as_int}
use pgfuse.Psql.Data.{
  psql_write_block, psql_write_buf, write_full, write_rest, write_blocks, expect_len, rounds_below,
}
use pgfuse.Psql.Data.Put.{as_int_small}
use pgfuse.Psql.Data.Written.{Written, Written-trans, Wrote, psql_write_block-Wrote}

drop-empty : {A : Type 0} (n : ℕ) → drop {A = A} n [] ≡ []
drop-empty zero = refl
drop-empty (suc n) = refl

drop-drop : {A : Type 0} (n m : ℕ) (xs : List A) → drop m (drop n xs) ≡ drop (n + m) xs
drop-drop zero m xs = ground arith
drop-drop (suc n) m [] = drop-empty m ∙ sym (drop-empty (suc n + m))
drop-drop (suc n) m (x ∷ xs) =
    let e : suc n + m ≡ suc (n + m) = omega arith in rw e (drop-drop n m xs)

nothing :
    (block_size i start : ℕ) (buf : List ℕ) (d : Db)
    → IsStored block_size d
    → Written block_size i start 0 buf d d
nothing block_size i start buf d stored = record {
  stored = stored;
  same_dir = refl;
  bytes = λ j p. ground arith;
}

expect_same : {env : Env} (n : ℕ) (d : Db) → Runs env (expect_len n n) d (ok tt) d
unfolding expect_len
expect_same n d = rw (==-refl n) (Runs-pure tt d)

module _ (env : Env) (answers : Answers env) (block_size i : ℕ) (positive : 0 < block_size)
    (block_small : block_size < 2 ^ 31) where
  abbrev Writes : {A : Type 0} → M A → A → ℕ → ℕ → List ℕ → Db → Type 0
  Writes m a start n buf d = Wrote env block_size i m a start n buf d

  still_there : (d d' : Db) → d'.dir ≡ d.dir → exists_id i d ≡ true → exists_id i d' ≡ true
  still_there d d' e there = simp e there

  restart :
      {A : Type 0} (m : M A) (a : A) {start start' n n' : ℕ} (buf : List ℕ) (d : Db)
      → start ≡ start'
      → n ≡ n'
      → Writes m a start n buf d
      → Writes m a start' n' buf d
  restart m a buf d e f w = rw (sym e, sym f) w

  -- One block that the buffer fills, the test of the result, and what follows.
  checked :
      {A : Type 0} (buf : List ℕ) (b offset len : ℕ) (d : Db) (next : ℕ → M A) {a : A} (m : ℕ)
      (w : Writes
        (psql_write_block block_size i buf b offset len)
        len
        (b * block_size + offset)
        len
        buf
        d)
      → Writes (next len) a (b * block_size + offset + len) m (drop len buf) w.after
      → Writes
          (psql_write_block block_size i buf b offset len >>= λ res.
            expect_len len res >>= λ _. next res)
          a
          (b * block_size + offset)
          (len + m)
          buf
          d
  checked buf b offset len d next m w h = record {
    after = h.after;
    runs = Runs-bind _ _ w.runs (Runs-bind _ _ (expect_same len w.after) h.runs);
    written =
        Written-trans block_size i (b * block_size + offset) len m buf d w.after h.after w.written
          h.written;
  }

  write_full-Wrote :
      (rounds : ℕ) (buf : List ℕ) (b : ℕ) (d : Db)
      → rounds * block_size ≤ length buf
      → IsStored block_size d
      → exists_id i d ≡ true
      → Writes
          (write_full rounds block_size i buf b)
          (drop (rounds * block_size) buf)
          (b * block_size)
          (rounds * block_size)
          buf
          d
  unfolding write_full
  write_full-Wrote zero buf b d given stored there =
      let none : 0 * block_size ≡ 0 = omega arith in
      rw none (record {
        after = d;
        runs = Runs-pure buf d;
        written = nothing block_size i (b * block_size) buf d stored;
      })
  write_full-Wrote (suc rounds) buf b d given stored there =
      let more : suc rounds * block_size ≡ block_size + rounds * block_size = omega arith in
      let enough : block_size + rounds * block_size ≤ length buf = rw more at given in
      let first : Writes (psql_write_block block_size i buf b 0 block_size) block_size
          (b * block_size + 0) block_size buf d =
        psql_write_block-Wrote answers block_size i positive block_small buf b 0 block_size d
          (omega arith) (omega arith) stored there in
      let rest =
        write_full-Wrote rounds (drop block_size buf) (b + 1) first.after
          (omega (arith, length-drop block_size buf)) first.written.stored
          (still_there d first.after first.written.same_dir there) in
      rw (more, sym (drop-drop block_size (rounds * block_size) buf))
        (restart _ _ buf d (omega arith) refl (
          checked buf b 0 block_size d
            (λ _. write_full rounds block_size i (drop block_size buf) (b + 1))
            (rounds * block_size) first (restart _ _ _ _ (omega arith) refl rest)))

  -- The last block of a request that runs over several.
  last_block :
      (buf : List ℕ) (b to_len len : ℕ) (d : Db)
      → to_len ≤ block_size
      → to_len ≤ length buf
      → len < 2 ^ 31
      → IsStored block_size d
      → exists_id i d ≡ true
      → Writes
          (psql_write_block block_size i buf b 0 to_len >>= λ res.
            expect_len to_len res >>= λ _. as_int len)
          len
          (b * block_size)
          to_len
          buf
          d
  last_block buf b to_len len d fits given small stored there =
      let last =
        psql_write_block-Wrote answers block_size i positive block_small buf b 0 to_len d
          (omega arith) given stored there in
      restart _ _ buf d (omega arith) (omega arith) (
        checked buf b 0 to_len d (λ _. as_int len) 0 last
          (rw (as_int_small len small) (record {
            after = last.after;
            runs = Runs-pure len last.after;
            written = nothing block_size i _ _ last.after last.written.stored;
          })))

  after_blocks :
      {A B : Type 0} (m : M A) (a : A) (next : A → M B) {b : B} (start n k : ℕ) (buf : List ℕ)
      (d : Db) (w : Writes m a start n buf d)
      → Writes (next a) b (start + n) k (drop n buf) w.after
      → Writes (m >>= next) b start (n + k) buf d
  after_blocks m a next start n k buf d w h = record {
    after = h.after;
    runs = Runs-bind _ _ w.runs h.runs;
    written = Written-trans block_size i start n k buf d w.after h.after w.written h.written;
  }

  rounds_between :
      (from to : ℕ) → from < to → to < 2 ^ 62 → rounds_below (from + 1) to ≡ to - (from + 1)
  rounds_between from to h small = ground (arith, slt64-eq-ltb (from + 1) to)

  block_gap :
      (from to : ℕ)
      → from < to
      → (to - (from + 1)) * block_size + (from + 1) * block_size ≡ to * block_size
  block_gap from to h =
      let apart : to ≡ to - (from + 1) + (from + 1) = omega arith in
      let spread : (to - (from + 1)) * block_size + (from + 1) * block_size
          ≡ (to - (from + 1) + (from + 1)) * block_size =
        omega arith in
      spread ∙ ap (λ x. x * block_size) (sym apart)

  done :
      (a start : ℕ) (buf : List ℕ) (d : Db)
      → IsStored block_size d
      → Writes (pure a) a start 0 buf d
  done a start buf d stored = record {
    after = d;
    runs = Runs-pure a d;
    written = nothing block_size i start buf d stored;
  }

  module _ (buf : List ℕ) (offset len : ℕ) (d : Db) (info : PgDataInfo)
      (c : Covers block_size offset len info) (given : len ≤ length buf) (small : len < 2 ^ 31)
      (stored : IsStored block_size d) (there : exists_id i d ≡ true) where
    one_block :
        info.from_block ≡ info.to_block
        → Writes (write_blocks block_size i info buf len) len offset len buf d
    unfolding write_blocks
    one_block e =
        let same : (info.from_block == info.to_block) ≡ true = ground arith in
        let fits : info.from_offset + len ≤ block_size =
          omega (arith, c.start, c.finish, c.last_fits, ap (λ x. x * block_size) e) in
        let w =
          psql_write_block-Wrote answers block_size i positive block_small buf info.from_block
            info.from_offset len d fits given stored there in
        simp (c.one e) (
          restart _ _ buf d c.start (omega arith) (
            checked buf info.from_block info.from_offset len d
              (λ res.
                if info.from_block == info.to_block
                then pure res
                else write_rest block_size i info buf len)
              0 w (simp same (done _ _ _ w.after w.written.stored))))

    many_blocks :
        info.from_block < info.to_block
        → Writes (write_blocks block_size i info buf len) len offset len buf d
    unfolding write_blocks write_rest
    many_blocks h =
        let apart : (info.from_block == info.to_block) ≡ false = ground arith in
        let gap = block_gap info.from_block info.to_block h in
        let n = info.to_block - (info.from_block + 1) in
        let filled : info.from_offset + info.from_len ≡ block_size = c.many h in
        let next_start : info.from_block * block_size + info.from_offset + info.from_len
            ≡ (info.from_block + 1) * block_size =
          omega (arith, filled) in
        let total : info.from_len + (n * block_size + info.to_len) ≡ len =
          omega (arith, gap, next_start, c.start, c.finish) in
        let first =
          psql_write_block-Wrote answers block_size i positive block_small buf info.from_block
            info.from_offset info.from_len d (omega (arith, filled)) (omega (arith, total)) stored
            there in
        let rest = drop info.from_len buf in
        let full =
          write_full-Wrote n rest (info.from_block + 1) first.after
            (omega (arith, total, length-drop info.from_len buf)) first.written.stored
            (still_there d first.after first.written.same_dir there) in
        let last =
          last_block (drop (n * block_size) rest) info.to_block info.to_len len full.after
            c.last_fits
            (omega (arith, total, length-drop info.from_len buf, length-drop (n * block_size) rest))
            small full.written.stored
            (still_there first.after full.after full.written.same_dir
              (still_there d first.after first.written.same_dir there)) in
        restart _ _ buf d c.start total (
          checked buf info.from_block info.from_offset info.from_len d
            (λ res.
              if info.from_block == info.to_block
              then pure res
              else write_rest block_size i info buf len)
            (n * block_size + info.to_len) first
            (simp (apart, rounds_between info.from_block info.to_block h c.to_small)
              (restart _ _ rest first.after (sym next_start) refl (
                after_blocks _ _ _ _ _ _ rest first.after full
                  (restart _ _ _ full.after (omega (arith, gap)) refl last)))))

  write_buf_wrote :
      (buf : List ℕ) (offset len : ℕ) (d : Db)
      → InRange block_size offset len
      → len ≤ length buf
      → IsStored block_size d
      → exists_id i d ≡ true
      → Writes (psql_write_buf block_size i buf offset len) len offset len buf d
  unfolding psql_write_buf
  write_buf_wrote buf offset len d fits given stored there = elim (Bool-cases (len == 0)) [
    | inl e ↦ let zero_len : len ≡ 0 = ==-eq _ _ e in rw (e, zero_len) (done 0 offset buf d stored)
    | inr e ↦
        let info = compute_block_info block_size offset len in
        let c = compute_block_info-Covers block_size offset len fits (ground arith) in
        let small : len < 2 ^ 31 = omega (arith, fits.len_small) in
        rw e (elim (Bool-cases (ltb info.from_block info.to_block)) [
          | inl h ↦ many_blocks buf offset len d info c given small stored there (ground arith)
          | inr h ↦
              one_block buf offset len d info c given small stored there (ground (arith, c.ordered))
        ])
  ]

  -- Inside a transaction, while no statement fails, a write within range to a file whose row is
  -- there, from a buffer that has the bytes, returns the length that was asked for; then the bytes
  -- of the range are those of the buffer, every other byte of every file is as it was, and the
  -- table still has at most one block per file and number, each of the block size.
  pub psql_write_buf-Written :
      (buf : List ℕ) (offset len : ℕ) (d : Db)
      → InRange block_size offset len
      → len ≤ length buf
      → IsStored block_size d
      → exists_id i d ≡ true
      → (d' : Db) × Runs env (psql_write_buf block_size i buf offset len) d (ok len) d'
        × Written block_size i offset len buf d d'
  psql_write_buf-Written buf offset len d fits given stored there =
      let w = write_buf_wrote buf offset len d fits given stored there in
      (w.after, w.runs, w.written)
