-- ===== src/Psql/Data/Rows.antt =====
-- The rows that psql_read_buf selects: in the order of their numbers, and the same blocks as the
-- table has.
use pgfuse.Base.{
  ℕ, ◌+◌, ◌^◌, ◌≤◌, ◌<◌, ◌≡◌, ◌∙◌, refl, Bool, true, ◌&&◌, none, List, [], ◌∷◌, arith, ◌==◌,
  filterb, countb, Bool-cases, inl, inr, ==-refl, sle64, sle64-eq-leb,
}
use pgfuse.Db.{DataRow, is_block, insert_row, order_rows}
use pgfuse.Store.{find_block}

-- Rows of file `i` with numbers from `lo` to `hi`, each once and in order.
abbrev pub Sorted : ℕ → ℕ → ℕ → List DataRow → Type 0
Sorted i lo hi [] = Unit
Sorted i lo hi (r ∷ rs) =
    ((r.dir_id ≡ i) × (lo ≤ r.block_no) × (r.block_no ≤ hi)) × Sorted i (r.block_no + 1) hi rs

-- Numbers that `ntohl` can carry.
abbrev pub AllSmall : List DataRow → Type 0
AllSmall [] = Unit
AllSmall (r ∷ rs) = (r.block_no < 2 ^ 32) × AllSmall rs

pub Sorted-none :
    (i lo hi c : ℕ) (rs : List DataRow) → Sorted i lo hi rs → c < lo → find_block i c rs ≡ none
Sorted-none i lo hi c [] h less = refl
Sorted-none i lo hi c (r ∷ rs) ((d, l, u), h) less =
    ground (arith, Sorted-none i (r.block_no + 1) hi c rs h)

pub Sorted-above :
    (i lo hi c : ℕ) (rs : List DataRow) → Sorted i lo hi rs → hi < c → find_block i c rs ≡ none
Sorted-above i lo hi c [] h less = refl
Sorted-above i lo hi c (r ∷ rs) ((d, l, u), h) less =
    ground (arith, Sorted-above i (r.block_no + 1) hi c rs h)

countb-insert_row :
    (p : DataRow → Bool) (r : DataRow) (rs : List DataRow)
    → countb p (insert_row r rs) ≡ countb p (r ∷ rs)
countb-insert_row p r [] = refl
countb-insert_row p r (x ∷ xs) = ground (arith, countb-insert_row p r xs)

countb-order_rows :
    (p : DataRow → Bool) (rs : List DataRow) → countb p (order_rows rs) ≡ countb p rs
countb-order_rows p [] = refl
countb-order_rows p (x ∷ xs) =
    countb-insert_row p x (order_rows xs) ∙ ground (arith, countb-order_rows p xs)

module _ (i hi : ℕ) (hi_small : hi < 2 ^ 62) where
  insert_row-Sorted :
      (lo : ℕ) (r : DataRow) (rs : List DataRow)
      → r.dir_id ≡ i
      → lo ≤ r.block_no
      → r.block_no ≤ hi
      → countb (is_block i r.block_no) rs ≡ 0
      → Sorted i lo hi rs
      → Sorted i lo hi (insert_row r rs)
  insert_row-Sorted lo r [] d l u fresh h = ((d, l, u), tt)
  insert_row-Sorted lo r (x ∷ xs) d l u fresh ((dx, lx, ux), h) =
      elim (Bool-cases (sle64 r.block_no x.block_no)) [
        | inl e ↦ rw e ((d, l, u), ((dx, ground (arith, fresh, e, dx), ux), h))
        | inr e ↦
            let less : x.block_no < r.block_no = ground (arith, e) in
            rw e (
              (dx, lx, ux),
              insert_row-Sorted (x.block_no + 1) r xs d (omega arith) u (ground (arith, fresh)) h,
            )
      ]

  insert_row-find :
      (c : ℕ) (r : DataRow) (rs : List DataRow)
      → r.dir_id ≡ i
      → countb (is_block i r.block_no) rs ≡ 0
      → find_block i c (insert_row r rs) ≡ find_block i c (r ∷ rs)
  insert_row-find c r [] d fresh = refl
  insert_row-find c r (x ∷ xs) d fresh = ground (arith, insert_row-find c r xs d)

  -- The condition of the SELECT.
  abbrev chosen : ℕ → DataRow → Bool
  chosen lo r = (r.dir_id == i) && sle64 lo r.block_no && sle64 r.block_no hi

  countb-chosen :
      (lo c : ℕ) (rs : List DataRow)
      → countb (is_block i c) (filterb (chosen lo) rs) ≤ countb (is_block i c) rs
  countb-chosen lo c [] = omega arith
  countb-chosen lo c (r ∷ rs) = ground (arith, countb-chosen lo c rs)

  fresh_row :
      (lo : ℕ) (r : DataRow) (rs : List DataRow)
      → r.dir_id ≡ i
      → countb (is_block i r.block_no) (r ∷ rs) ≤ 1
      → countb (is_block i r.block_no) (order_rows (filterb (chosen lo) rs)) ≡ 0
  fresh_row lo r rs d unique =
      let here : is_block i r.block_no r ≡ true = ground (arith, d, ==-refl r.block_no) in
      let once : countb (is_block i r.block_no) rs ≡ 0 = ground (arith, unique, here) in
      omega (
        arith,
        countb-order_rows (is_block i r.block_no) (filterb (chosen lo) rs),
        countb-chosen lo r.block_no rs,
        once,
      )

  tail_unique :
      (r : DataRow) (rs : List DataRow) (c : ℕ)
      → countb (is_block i c) (r ∷ rs) ≤ 1
      → countb (is_block i c) rs ≤ 1
  tail_unique r rs c h = ground (arith, h)

  pub ordered-Sorted :
      (lo : ℕ) (rs : List DataRow)
      → lo ≤ hi
      → AllSmall rs
      → ((c : ℕ) → countb (is_block i c) rs ≤ 1)
      → Sorted i lo hi (order_rows (filterb (chosen lo) rs))
  ordered-Sorted lo [] le small unique = tt
  ordered-Sorted lo (r ∷ rs) le (r_small, small) unique =
      let rest = ordered-Sorted lo rs le small (λ c. tail_unique r rs c (unique c)) in
      elim (Bool-cases (chosen lo r)) [
        | inl e ↦
            let d : r.dir_id ≡ i = ground (arith, e) in
            rw e (
              insert_row-Sorted lo r (order_rows (filterb (chosen lo) rs)) d
                (ground (arith, e, sle64-eq-leb lo r.block_no))
                (ground (arith, e, sle64-eq-leb r.block_no hi))
                (fresh_row lo r rs d (unique r.block_no)) rest)
        | inr e ↦ rw e rest
      ]

  pub find-ordered :
      (lo c : ℕ) (rs : List DataRow)
      → lo ≤ c
      → c ≤ hi
      → ((b : ℕ) → countb (is_block i b) rs ≤ 1)
      → find_block i c (order_rows (filterb (chosen lo) rs)) ≡ find_block i c rs
  find-ordered lo c [] l u unique = refl
  find-ordered lo c (r ∷ rs) l u unique =
      let rest = find-ordered lo c rs l u (λ b. tail_unique r rs b (unique b)) in
      elim (Bool-cases (chosen lo r)) [
        | inl e ↦
            let d : r.dir_id ≡ i = ground (arith, e) in
            rw e (
              insert_row-find c r (order_rows (filterb (chosen lo) rs)) d
                (fresh_row lo r rs d (unique r.block_no))
              ∙ ground (arith, rest))
        | inr e ↦ rw e (ground (arith, rest, e, sle64-eq-leb lo c, sle64-eq-leb c hi))
      ]
