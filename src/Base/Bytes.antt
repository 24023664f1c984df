-- ===== src/Base/Bytes.antt =====
-- The bytes of a list of bytes by their index: what append, take, drop and replicate do to them.
use Prim.Native.Nat.{ℕ, zero, suc, ◌+◌, ◌-◌, ◌≤◌}
use mathlib.Core.Path.{◌≡◌, refl}
use mathlib.Core.List.{List, [], ◌∷◌, ◌++◌}
use native.Mathlib.Omega.{arith}
use pgfuse.Base.Ints.{ltb, if◌then◌else◌}
use pgfuse.Base.Lists.{length, take, drop, replicate, byte_or}

pub byte_or-past : (xs : List ℕ) (k : ℕ) → length xs ≤ k → byte_or xs k ≡ 0
byte_or-past [] k h = refl
byte_or-past (x ∷ xs) zero h = absurd (omega arith)
byte_or-past (x ∷ xs) (suc k) h = byte_or-past xs k (omega arith)

pub byte_or-append :
    (xs ys : List ℕ) (k : ℕ)
    → byte_or (xs ++ ys) k
      ≡ (if ltb k (length xs) then byte_or xs k else byte_or ys (k - length xs))
byte_or-append [] ys k = ground arith
byte_or-append (x ∷ xs) ys zero = ground arith
byte_or-append (x ∷ xs) ys (suc k) = ground (arith, byte_or-append xs ys k)

pub byte_or-take :
    (n : ℕ) (xs : List ℕ) (k : ℕ) → byte_or (take n xs) k ≡ (if ltb k n then byte_or xs k else 0)
byte_or-take zero xs k = ground arith
byte_or-take (suc n) [] k = ground arith
byte_or-take (suc n) (x ∷ xs) zero = ground arith
byte_or-take (suc n) (x ∷ xs) (suc k) = ground (arith, byte_or-take n xs k)

pub byte_or-drop : (n : ℕ) (xs : List ℕ) (k : ℕ) → byte_or (drop n xs) k ≡ byte_or xs (n + k)
byte_or-drop zero xs k = ground arith
byte_or-drop (suc n) [] k = ground arith
byte_or-drop (suc n) (x ∷ xs) k = ground (arith, byte_or-drop n xs k)

pub byte_or-replicate : (n k : ℕ) → byte_or (replicate n 0) k ≡ 0
byte_or-replicate zero k = refl
byte_or-replicate (suc n) zero = refl
byte_or-replicate (suc n) (suc k) = byte_or-replicate n k
