-- ===== src/Psql/Data/Splice.antt =====
-- psql_write_block: the four UPDATE texts are one splice, and the missing block is added.
use pgfuse.Base.{
  ℕ, ◌+◌, ◌-◌, ◌≤◌, ◌<◌, ◌≡◌, refl, ◌&&◌, Option, none, some, List, [], ◌++◌, arith, ◌==◌, ltb, leb,
  if◌then◌else◌, length, byte_or, take, drop, byte_or-append, byte_or-take, byte_or-drop,
  length-append, length-take, length-drop, Bool-cases, inl, inr, ==-eq, ltb-lt,
}
use mathlib.Core.List.{append-nil}
use pgfuse.Db.{substring}
use pgfuse.Psql.Data.{write_text}

-- What an UPDATE text makes of a block: `len` bytes from `offset` on are those of the buffer.
pub record Splices (block_size offset len : ℕ) (buf : List ℕ) (text : List ℕ → List ℕ)
    : Type 0 where
  pub keeps_length : (old : List ℕ) → length old ≡ block_size → length (text old) ≡ block_size
  pub bytes :
      (old : List ℕ) (k : ℕ)
      → length old ≡ block_size
      → k < block_size
      → byte_or (text old) k
        ≡ (if leb offset k && ltb k (offset + len) then byte_or buf (k - offset) else byte_or old k)

module _ (block_size offset len : ℕ) (buf : List ℕ) (fits : offset + len ≤ block_size)
    (given : len ≤ length buf) where
  abbrev whole : List ℕ → List ℕ
  whole old =
      take offset old
      ++ (take len buf ++ take (block_size - (offset + len)) (drop (offset + len) old))

  whole-length : (old : List ℕ) → length old ≡ block_size → length (whole old) ≡ block_size
  whole-length old e = omega (
    arith,
    length-append (take offset old)
        (take len buf ++ take (block_size - (offset + len)) (drop (offset + len) old)),
    length-append (take len buf) (take (block_size - (offset + len)) (drop (offset + len) old)),
    length-take offset old (omega arith),
    length-take len buf given,
    length-drop (offset + len) old,
    length-take (block_size - (offset + len)) (drop (offset + len) old)
        (omega (arith, length-drop (offset + len) old)),
  )

  byte_or-whole :
      (old : List ℕ) (k : ℕ)
      → length old ≡ block_size
      → k < block_size
      → byte_or (whole old) k
        ≡ (if leb offset k && ltb k (offset + len) then byte_or buf (k - offset) else byte_or old k)
  byte_or-whole old k e h =
      simp
        (
          byte_or-append,
          byte_or-take,
          byte_or-drop,
          length-take offset old (omega arith),
          length-take len buf given,
        )
        (ground arith)

  -- The text that psql_write_block chooses does what `whole` does.
  abbrev Chosen : Option (List ℕ → List ℕ) → Type 0
  Chosen none = ⊥
  Chosen (some text) = (old : List ℕ) → text old ≡ whole old

  take_none : (xs : List ℕ) (n : ℕ) → n ≡ 0 → take n xs ≡ []
  take_none xs n e = rw e

  minus_one : (n : ℕ) → n + 1 - 1 ≡ n
  minus_one n = omega arith

  abbrev right_part : List ℕ → List ℕ
  right_part old = take (block_size - (offset + len)) (drop (offset + len) old)

  complete : offset ≡ 0 → len ≡ block_size → (old : List ℕ) → take len buf ≡ whole old
  complete e f old = rw (
    take_none old offset e,
    take_none (drop (offset + len) old) (block_size - (offset + len)) (omega arith),
    append-nil,
  )

  keeps_right :
      offset ≡ 0
      → (old : List ℕ) → take len buf ++ substring old (len + 1) (block_size - len) ≡ whole old
  keeps_right e old =
      let f : offset + len ≡ len = omega arith in rw (take_none old offset e, minus_one len, f)

  keeps_left :
      offset + len ≡ block_size → (old : List ℕ) → take offset old ++ take len buf ≡ whole old
  keeps_left e old =
      rw (
        take_none (drop (offset + len) old) (block_size - (offset + len)) (omega arith),
        append-nil,
      )

  keeps_both :
      (old : List ℕ)
      → take offset old
          ++ (take len buf ++ substring old (offset + len + 1) (block_size - (offset + len)))
        ≡ whole old
  keeps_both old = rw (minus_one (offset + len))

  write_text-Chosen : Chosen (write_text block_size offset len (take len buf))
  unfolding write_text
  write_text-Chosen = elim (Bool-cases (offset == 0)) [
    | inl at_start ↦ elim (Bool-cases (len == block_size)) [
      | inl all ↦ simp (at_start, all) (complete (==-eq _ _ at_start) (==-eq _ _ all))
      | inr part ↦
          simp (at_start, part, ltb-lt len block_size (ground arith))
            (keeps_right (==-eq _ _ at_start))
    ]
    | inr later ↦ elim (Bool-cases (offset + len == block_size)) [
      | inl to_end ↦
          simp (later, to_end, ltb-lt 0 offset (ground arith)) (keeps_left (==-eq _ _ to_end))
      | inr middle ↦
          simp
            (
              later,
              middle,
              ltb-lt 0 offset (ground arith),
              ltb-lt (offset + len) block_size (ground arith),
            )
            keeps_both
    ]
  ]

  Chosen-Splices :
      (o : Option (List ℕ → List ℕ))
      → Chosen o
      → (text : List ℕ → List ℕ) × (o ≡ some text) × Splices block_size offset len buf text
  Chosen-Splices none h = absurd h
  Chosen-Splices (some text) h = (
    text,
    refl,
    record {
      keeps_length = λ old e. rw (h old) (whole-length old e);
      bytes = λ old k e lt. rw (h old) (byte_or-whole old k e lt);
    },
  )

  -- A write that stays in its block and has its bytes always finds one of the four UPDATE texts, and
  -- that text puts the bytes of the buffer at their place, keeps every other byte of the block and
  -- keeps its length.
  pub write_text-Splices :
      (text : List ℕ → List ℕ) × (write_text block_size offset len (take len buf) ≡ some text)
      × Splices block_size offset len buf text
  write_text-Splices = Chosen-Splices _ write_text-Chosen
