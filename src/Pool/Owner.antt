-- ===== src/Pool/Owner.antt =====
-- Who a connection of the pool belongs to: `avail` of the last slot that has it.
use pgfuse.Base.{
  ℕ, ◌≡◌, ◌≢◌, ◌⊎◌, inl, inr, refl, sym, Bool, Option, none, some, List, [], ◌∷◌, arith, ◌==◌,
  if◌then◌else◌, Option-cases,
}
use pgfuse.Pool.{Slot, available, error, find_free, free_last}

abbrev or_this : Option ℕ → ℕ → Slot → Option ℕ
or_this (some a) c s = some a
or_this none c s = if s.conn == c then some s.avail else none

abbrev pub owner : ℕ → List Slot → Option ℕ
owner c [] = none
owner c (s ∷ ss) = or_this (owner c ss) c s

-- A connection that is not lost stands in no later slot; a lost one may, since its memory may have
-- been given to a later PQconnectdb.
abbrev pub Live : List Slot → Type 0
Live [] = Unit
Live (s ∷ ss) = ((s.avail ≡ error) ⊎ (owner s.conn ss ≡ none)) × Live ss

module _ (good : ℕ → Bool) (thread : ℕ) where
  abbrev pub after : List Slot → List Slot
  after ss = (find_free good thread ss).1

  pub acquire-none : (c : ℕ) (ss : List Slot) → owner c ss ≡ none → owner c (after ss) ≡ none
  unfolding find_free
  acquire-none c [] h = refl
  acquire-none c (s ∷ ss) h = ground (arith, acquire-none c ss, Option-cases (owner c ss))

  -- A connection that a thread has is left alone.
  pub acquire-owner :
      (c a : ℕ) (ss : List Slot) → a ≢ available → owner c ss ≡ some a → owner c (after ss) ≡ some a
  unfolding find_free
  acquire-owner c a [] n h = cc
  acquire-owner c a (s ∷ ss) n h =
      ground (arith, acquire-owner c a ss n, acquire-none c ss, Option-cases (owner c ss))

  pub acquire-found :
      (c : ℕ) (ss : List Slot)
      → Live ss
      → (find_free good thread ss).0 ≡ some c
      → (owner c ss ≡ some available) × (owner c (after ss) ≡ some thread)
  unfolding find_free
  acquire-found c [] live h = cc
  acquire-found c (s ∷ ss) live h =
      ground (arith, acquire-found c ss live.1, live.0, Option-cases (owner c ss))

  pub acquire-Live : (ss : List Slot) → Live ss → Live (after ss)
  unfolding find_free
  acquire-Live [] live = tt
  acquire-Live (s ∷ ss) (l, live) = ground (arith, acquire-Live ss live, acquire-none s.conn ss, l)

module _ (c : ℕ) where
  free_last-none : (ss : List Slot) → owner c ss ≡ none → free_last c ss ≡ none
  unfolding free_last
  free_last-none [] h = refl
  free_last-none (s ∷ ss) h = ground (arith, free_last-none ss, Option-cases (owner c ss))

  none-free_last : (ss : List Slot) → free_last c ss ≡ none → owner c ss ≡ none
  unfolding free_last
  none-free_last [] h = refl
  none-free_last (s ∷ ss) h = ground (arith, none-free_last ss, Option-cases (free_last c ss))

  -- Which slot is freed.
  freed :
      (s : Slot) (ss ss' : List Slot)
      → free_last c (s ∷ ss) ≡ some ss'
      → ((rest : List Slot) × (free_last c ss ≡ some rest) × (s ∷ rest ≡ ss'))
        ⊎ ((owner c ss ≡ none) × (s.conn ≡ c) × (record s { avail = available } ∷ ss ≡ ss'))
  unfolding free_last
  freed s ss ss' h = elim (Option-cases (free_last c ss)) [
    | inl e ↦ inr (none-free_last ss e, ground (arith, h, e), ground (arith, h, e))
    | inr (rest, e) ↦ inl (rest, e, ground (arith, h, e))
  ]

  pub free_last-other :
      (c' : ℕ) (ss ss' : List Slot)
      → c' ≢ c
      → free_last c ss ≡ some ss'
      → owner c' ss' ≡ owner c' ss
  free_last-other c' [] ss' n h = unfold free_last in cc
  free_last-other c' (s ∷ ss) ss' n h = elim (freed s ss ss' h) [
    | inl (rest, e, same) ↦ rw (sym same, free_last-other c' ss rest n e) refl
    | inr (e, here, same) ↦ rw (sym same) (ground (arith, here, n))
  ]

  pub free_last-Live : (ss ss' : List Slot) → Live ss → free_last c ss ≡ some ss' → Live ss'
  free_last-Live [] ss' live h = unfold free_last in cc
  free_last-Live (s ∷ ss) ss' (l, live) h = elim (freed s ss ss' h) [
    | inl (rest, e, same) ↦ rw (sym same) (
        ground (
          arith,
          l,
          free_last-Live ss rest live e,
          free_last-other s.conn ss rest,
          free_last-none ss,
        ))
    | inr (e, here, same) ↦
        let gone : owner s.conn ss ≡ none = rw here e in rw (sym same) (inr gone, live)
  ]

  pub free_last-owned :
      (a : ℕ) (ss : List Slot)
      → owner c ss ≡ some a
      → (ss' : List Slot) × (free_last c ss ≡ some ss') × (owner c ss' ≡ some available)
  unfolding free_last
  free_last-owned a [] h = cc
  free_last-owned a (s ∷ ss) h = elim (Option-cases (owner c ss)) [
    | inl e ↦ (
      record s { avail = available } ∷ ss,
      ground (arith, free_last-none ss e),
      ground (arith, e),
    )
    | inr (b, e) ↦ let (rest, f, g) = free_last-owned b ss e in (s ∷ rest, simp f refl, simp g refl)
  ]
