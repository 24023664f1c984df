-- ===== src/Psql/Data/Written.antt =====
-- psql_write_block on the bytes of a file: the content a write leaves, and writes one after another.
use native.Mathlib.Nat.{div-add-mod', mod-lt}
use pgfuse.Base.{
  ℕ, ◌+◌, ◌-◌, ◌*◌, ◌/◌, ◌%◌, ◌^◌, ◌≤◌, ◌<◌, ◌≡◌, ◌∙◌, sym, ap, refl, Bool, true, false, ◌&&◌,
  Option, none, some, List, arith, ◌==◌, ltb, leb, if◌then◌else◌, length, byte_or, drop,
  byte_or-drop, Bool-cases, inl, inr, ==-eq, ==-refl,
}
use mathlib.Core.Option
use pgfuse.Db.{DataRow, Db, exists_id}
use pgfuse.Session.{ok, Env, M}
use pgfuse.Session.Runs.{Answers, Runs}
use pgfuse.Store.{
  find_block, byte_in, content, IsStored, find_block-update, countb-update, find_block-some,
}
use pgfuse.Psql.Data.{psql_write_block, write_chosen}
use pgfuse.Psql.Data.Splice.{Splices, write_text-Splices}
use pgfuse.Psql.Data.Put.{
  with_block, put_block, byte_in-with_block, count-with_block, count-with_block_self,
  full-with_block, update_again-put_block,
}

-- What a write of the first `n` bytes of `buf` to file `i`, from byte `start` on, makes of `d`.
pub record Written (block_size i start n : ℕ) (buf : List ℕ) (d d' : Db) : Type 0 where
  pub stored : IsStored block_size d'
  pub same_dir : d'.dir ≡ d.dir
  pub bytes :
      (j p : ℕ)
      → content block_size d' j p ≡ (
          if (i == j) && leb start p && ltb p (start + n)
          then byte_or buf (p - start)
          else content block_size d j p)

split_bytes :
    (start n m p : ℕ) (here : Bool) (old : ℕ) (new : ℕ → ℕ)
    → (if here && leb (start + n) p && ltb p (start + n + m)
        then new (n + (p - (start + n)))
        else if here && leb start p && ltb p (start + n)
        then new (p - start)
        else old)
      ≡ (if here && leb start p && ltb p (start + (n + m)) then new (p - start) else old)
split_bytes start n m p here old new = elim (Bool-cases (leb (start + n) p)) [
  | inl e ↦ let same : n + (p - (start + n)) ≡ p - start = ground arith in rw same (ground arith)
  | inr e ↦ ground arith
]

-- Two writes, the second where the first ends, are one.
pub Written-trans :
    (block_size i start n m : ℕ) (buf : List ℕ) (d d' d'' : Db)
    → Written block_size i start n buf d d'
    → Written block_size i (start + n) m (drop n buf) d' d''
    → Written block_size i start (n + m) buf d d''
Written-trans block_size i start n m buf d d' d'' h k = record {
  stored = k.stored;
  same_dir = k.same_dir ∙ h.same_dir;
  bytes = λ j p.
      rw (k.bytes j p, h.bytes j p, byte_or-drop n buf (p - (start + n)))
        (split_bytes start n m p (i == j) (content block_size d j p) (byte_or buf));
}

module _ (block_size i b offset len : ℕ) (fits : offset + len ≤ block_size) where
  later : (q r : ℕ) → b < q → b * block_size + block_size ≤ q * block_size
  later q r h = grind arith

  earlier : (q : ℕ) → q < b → q * block_size + block_size ≤ b * block_size
  earlier q h = grind arith

  -- A byte is in a range of block `b` if its number in the file is in the range.
  in_range :
      (p : ℕ)
      → 0 < block_size
      → (b == p / block_size) && leb offset (p % block_size) && ltb (p % block_size) (offset + len)
        ≡ leb (b * block_size + offset) p && ltb p (b * block_size + offset + len)
  in_range p h = ground (
    arith,
    div-add-mod' p block_size,
    mod-lt p h,
    later (p / block_size) 0,
    earlier (p / block_size),
  )

  shift : (p : ℕ) → b ≡ p / block_size → p % block_size - offset ≡ p - (b * block_size + offset)
  shift p e = rw e (omega (arith, div-add-mod' p block_size))

  moved :
      (p : ℕ)
      → 0 < block_size
      → (here : Bool) (old : ℕ) (new : ℕ → ℕ)
      → (if here
            && ((b == p / block_size)
                && leb offset (p % block_size)
                && ltb (p % block_size) (offset + len))
          then new (p % block_size - offset)
          else old)
        ≡ (if here && leb (b * block_size + offset) p && ltb p (b * block_size + offset + len)
            then new (p - (b * block_size + offset))
            else old)
  moved p positive here old new = elim (Bool-cases (b == p / block_size)) [
    | inl e ↦ rw (shift p (==-eq _ _ e)) (ground (arith, in_range p positive))
    | inr e ↦ ground (arith, in_range p positive)
  ]

module _ (block_size i b offset len : ℕ) (buf : List ℕ) (text : List ℕ → List ℕ) (d : Db)
    (positive : 0 < block_size) (fits : offset + len ≤ block_size)
    (splices : Splices block_size offset len buf text) (h : IsStored block_size d) where
  abbrev there : List DataRow
  there = with_block block_size i b d.blocks

  -- The block that is written, byte by byte.
  at_self :
      (k : ℕ)
      → k < block_size
      → byte_in (Option.map text (find_block i b there)) k ≡ (
          if leb offset k && ltb k (offset + len)
          then byte_or buf (k - offset)
          else byte_in (find_block i b d.blocks) k)
  at_self k small =
      let (xs, q) =
        find_block-some i b there
          (omega (arith, count-with_block_self block_size i b d.blocks (h.unique i b))) in
      let same = byte_in-with_block block_size i b d.blocks i b k in
      let full = full-with_block block_size i b d.blocks i b xs (h.full i b) q in
      rw (sym same, q) (splices.bytes xs k full small)

  at_block :
      (j c k : ℕ)
      → k < block_size
      → byte_in (find_block j c (put_block block_size i b text d).blocks) k ≡ (
          if (i == j) && ((b == c) && leb offset k && ltb k (offset + len))
          then byte_or buf (k - offset)
          else byte_in (find_block j c d.blocks) k)
  at_block j c k small = elim (Bool-cases ((i == j) && (b == c))) [
    | inl e ↦
        let same_i : j ≡ i = ground arith in
        let same_b : c ≡ b = ground arith in
        rw (same_i, same_b)
          (rw (find_block-update i b text i b there, ==-refl i, ==-refl b) (at_self k small))
    | inr e ↦
        rw (find_block-update i b text j c there, e)
          (rw (byte_in-with_block block_size i b d.blocks j c k) (ground arith))
  ]

  mapped_length :
      (bytes : List ℕ) (found : Option (List ℕ))
      → ((xs : List ℕ) → found ≡ some xs → length xs ≡ block_size)
      → Option.map text found ≡ some bytes
      → length bytes ≡ block_size
  mapped_length bytes none full q = cc
  mapped_length bytes (some xs) full q =
      let same : text xs ≡ bytes = cc in
      sym (ap length same) ∙ splices.keeps_length xs (full xs refl)

  full_block :
      (j c : ℕ) (bytes : List ℕ)
      → find_block j c (put_block block_size i b text d).blocks ≡ some bytes
      → length bytes ≡ block_size
  full_block j c bytes q = elim (Bool-cases ((i == j) && (b == c))) [
    | inl e ↦
        mapped_length bytes (find_block j c there)
          (λ xs. full-with_block block_size i b d.blocks j c xs (h.full j c))
          (rw e at (sym (find_block-update i b text j c there) ∙ q))
    | inr e ↦
        full-with_block block_size i b d.blocks j c bytes (h.full j c)
          (rw e at (sym (find_block-update i b text j c there) ∙ q))
  ]

  pub put_block-Written :
      Written block_size i (b * block_size + offset) len buf d (put_block block_size i b text d)
  put_block-Written = record {
    stored = record {
      unique = λ j c.
          rw (countb-update i b text j c there)
            (count-with_block block_size i b d.blocks j c (h.unique j c));
      full = full_block;
    };
    same_dir = refl;
    bytes = λ j p.
        at_block j (p / block_size) (p % block_size) (mod-lt p positive)
        ∙ moved block_size i b offset len fits p positive (i == j) (content block_size d j p)
            (byte_or buf);
  }

-- A write that succeeds with `a`, and what it makes of the tables.
pub record Wrote (env : Env) (block_size i : ℕ) {A : Type 0} (m : M A) (a : A) (start n : ℕ)
    (buf : List ℕ) (d : Db) : Type 0 where
  pub after : Db
  pub runs : Runs env m d (ok a) after
  pub written : Written block_size i start n buf d after

module _ {env : Env} (answers : Answers env) (block_size i : ℕ) (positive : 0 < block_size)
    (block_small : block_size < 2 ^ 31) where
  pub psql_write_block-Wrote :
      (buf : List ℕ) (b offset len : ℕ) (d : Db)
      → offset + len ≤ block_size
      → len ≤ length buf
      → IsStored block_size d
      → exists_id i d ≡ true
      → Wrote env block_size i
          (psql_write_block block_size i buf b offset len)
          len
          (b * block_size + offset)
          len
          buf
          d
  unfolding psql_write_block write_chosen
  psql_write_block-Wrote buf b offset len d fits given stored there =
      let (text, chosen, splices) = write_text-Splices block_size offset len buf fits given in
      record {
        after = put_block block_size i b text d;
        runs =
            let e : ltb block_size ((offset + len) % 2 ^ 64) ≡ false = ground arith in
            rw (e, chosen)
              (update_again-put_block answers block_size i b len text (omega arith) d
                (stored.unique i b) there);
        written =
            put_block-Written block_size i b offset len buf text d positive fits splices stored;
      }
