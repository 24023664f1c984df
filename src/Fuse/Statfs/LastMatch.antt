-- ===== src/Fuse/Statfs/LastMatch.antt =====
-- pgfuse_statfs, pgfuse.c, lines 984-1029: which entry of the mount table decides.
use pgfuse.Base.{
  ℕ, ◌≡◌, refl, ◌&&◌, ◌||◌, Bool, true, false, Option, none, some, List, [], ◌∷◌, ◌++◌, map, arith,
  ltb, if◌then◌else◌, length, countb, Bool-cases, inl, inr,
}
use pgfuse.Db.{Db}
use pgfuse.Session.{ok, Env}
use pgfuse.Session.Runs.{Answers, Runs, Runs-pure, Runs-bind}
use pgfuse.Psql.Tablespace.Paths.{dup-Runs}
use pgfuse.Fuse.Statfs.{
  FsStat, Machine, is_prefix, Space, unlimited, Found, match_location, match_locations, narrowed,
  measured, measure, not_yet, scan_mounts,
}

-- Whether a location is below `dir`.
abbrev pub above_some : List ℕ → List (List ℕ) → Bool
above_some dir [] = false
above_some dir (location ∷ locations) = is_prefix dir location || above_some dir locations

-- A mount point that is above one of the locations.
abbrev pub holds_one : List (List ℕ) → Option (List ℕ) → Bool
holds_one locations none = false
holds_one locations (some dir) = ltb 0 (length dir) && above_some dir locations

-- statfs(2) answers.
abbrev pub Responds : Machine → Type 0
Responds machine = (dir : List ℕ) → (fs : FsStat) × (machine.statfs dir ≡ some fs)

abbrev hit : List ℕ → Found
hit dir = record { prefix = some dir; prefix_len = length dir; space = unlimited }

abbrev found_one : List ℕ → List ℕ → Found → Found
found_one dir location found =
    if is_prefix dir location && ltb found.prefix_len (length dir) then hit dir else found

abbrev found_in : List ℕ → List (List ℕ) → Found → Found
found_in dir [] found = found
found_in dir (location ∷ locations) found = found_in dir locations (found_one dir location found)

found_in-hit : (dir : List ℕ) (ls : List (List ℕ)) → found_in dir ls (hit dir) ≡ hit dir
found_in-hit dir [] = refl
found_in-hit dir (l ∷ ls) = ground (arith, found_in-hit dir ls)

module _ (dir : List ℕ) (space : Space) where
  found_in_some :
      (ls : List (List ℕ))
      → (ltb 0 (length dir) && above_some dir ls) ≡ true
      → found_in dir ls (not_yet space) ≡ hit dir
  found_in_some [] h = ground arith
  found_in_some (l ∷ ls) h = ground (arith, found_in-hit dir ls, found_in_some ls)

  found_in_none :
      (ls : List (List ℕ))
      → (ltb 0 (length dir) && above_some dir ls) ≡ false
      → found_in dir ls (not_yet space) ≡ not_yet space
  found_in_none [] h = refl
  found_in_none (l ∷ ls) h = ground (arith, found_in_none ls)

module _ {env : Env} (answers : Answers env) (d : Db) where
  match_location-Runs :
      (dir location : List ℕ) (found : Found)
      → Runs env (match_location dir (some location) found) d (ok (found_one dir location found)) d
  unfolding match_location
  match_location-Runs dir location found =
      elim (Bool-cases (is_prefix dir location && ltb found.prefix_len (length dir))) [
        | inl e ↦ simp e (Runs-bind _ _ (dup-Runs answers d dir) (Runs-pure _ d))
        | inr e ↦ simp e (Runs-pure found d)
      ]

  match_locations-Runs :
      (dir : List ℕ) (ls : List (List ℕ)) (found : Found)
      → Runs env (match_locations dir (map some ls) found) d (ok (found_in dir ls found)) d
  unfolding match_locations
  match_locations-Runs dir [] found = Runs-pure found d
  match_locations-Runs dir (l ∷ ls) found =
      Runs-bind _ _ (match_location-Runs dir l found) (match_locations-Runs dir ls _)

  match_hit :
      (dir : List ℕ) (ls : List (List ℕ)) (space : Space)
      → holds_one ls (some dir) ≡ true
      → Runs env (match_locations dir (map some ls) (not_yet space)) d (ok (hit dir)) d
  match_hit dir ls space h =
      rw (found_in_some dir space ls h) at (match_locations-Runs dir ls (not_yet space))

  match_none :
      (dir : List ℕ) (ls : List (List ℕ)) (space : Space)
      → holds_one ls (some dir) ≡ false
      → Runs env (match_locations dir (map some ls) (not_yet space)) d (ok (not_yet space)) d
  match_none dir ls space h =
      rw (found_in_none dir space ls h) at (match_locations-Runs dir ls (not_yet space))

  module _ (block_size : ℕ) (machine : Machine) (responds : Responds machine)
      (locations : List (List ℕ)) where
    measure-Runs :
        (space : Space) (prefix : Option (List ℕ))
        → (next : Space) × Runs env (measure block_size machine space prefix) d (ok next) d
    unfolding measure measured
    measure-Runs space none = (space, Runs-pure space d)
    measure-Runs space (some dir) =
        let (fs, e) = responds dir in (narrowed block_size fs space, simp e (Runs-pure _ d))

    measure_hit :
        (dir : List ℕ) (fs : FsStat)
        → machine.statfs dir ≡ some fs
        → Runs env
            (measure block_size machine unlimited (some dir))
            d
            (ok (narrowed block_size fs unlimited))
            d
    unfolding measure measured
    measure_hit dir fs e = simp e (Runs-pure _ d)

    -- Entries that hold none of the locations change nothing.
    scan_others :
        (mounts : List (Option (List ℕ))) (space : Space)
        → countb (holds_one locations) mounts ≡ 0
        → Runs env (scan_mounts block_size machine (map some locations) mounts space) d (ok space) d
    unfolding scan_mounts measure
    scan_others [] space h = Runs-pure space d
    scan_others (none ∷ mounts) space h = scan_others mounts space h
    scan_others (some dir ∷ mounts) space h = elim (Bool-cases (holds_one locations (some dir))) [
      | inl e ↦ absurd (ground (arith, h, e))
      | inr e ↦
          Runs-bind _ _ (match_none dir locations space e)
            (Runs-bind _ _ (Runs-pure space d) (scan_others mounts space (ground (arith, h, e))))
    ]

    pub scan_last :
        (before after : List (Option (List ℕ))) (dir : List ℕ) (fs : FsStat) (space : Space)
        → holds_one locations (some dir) ≡ true
        → countb (holds_one locations) after ≡ 0
        → machine.statfs dir ≡ some fs
        → Runs env
            (scan_mounts block_size machine (map some locations) (before ++ some dir ∷ after) space)
            d
            (ok (narrowed block_size fs unlimited))
            d
    unfolding scan_mounts
    scan_last [] after dir fs space holds others e =
        Runs-bind _ _ (match_hit dir locations space holds)
          (Runs-bind _ _ (measure_hit dir fs e) (scan_others after _ others))
    scan_last (none ∷ before) after dir fs space holds others e =
        scan_last before after dir fs space holds others e
    scan_last (some dir' ∷ before) after dir fs space holds others e =
        let (next, runs) = measure-Runs _ _ in
        Runs-bind _ _ (match_locations-Runs dir' locations (not_yet space))
          (Runs-bind _ _ runs (scan_last before after dir fs next holds others e))
