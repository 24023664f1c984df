-- ===== src/Psql/Path/Parts.antt =====
-- How psql_path_to_id cuts a path with strtok_r.
use pgfuse.Base.{
  ℕ, ◌≡◌, ◌≢◌, refl, sym, ap, ◌∙◌, false, List, [], ◌∷◌, ◌++◌, ◌==◌, Bool-cases, inl, inr,
}
use mathlib.Core.List.{append-nil, append_assoc}
use pgfuse.Psql.Path.{split_from, path_parts, emit, psql_path_to_id}

emit-append : (part : List ℕ) (xs ys : List (List ℕ)) → emit part (xs ++ ys) ≡ emit part xs ++ ys
emit-append [] xs ys = refl
emit-append (c ∷ part) xs ys = refl

split_from-append :
    (part a b : List ℕ) → split_from part (a ++ b'/' ∷ b) ≡ split_from part a ++ split_from [] b
unfolding split_from
split_from-append part [] b = emit-append part [] (split_from [] b)
split_from-append part (c ∷ a) b = elim (Bool-cases (c == b'/')) [
  | inl e ↦ rw e (
      ap (emit part) (split_from-append [] a b)
      ∙ emit-append part (split_from [] a) (split_from [] b))
  | inr e ↦ rw e (split_from-append (part ++ c ∷ []) a b)
]

-- The parts of a path are those before a slash and then those after it.
pub path_parts-append : (a b : List ℕ) → path_parts (a ++ b'/' ∷ b) ≡ path_parts a ++ path_parts b
unfolding path_parts
path_parts-append a b = split_from-append [] a b

-- The bytes of a name: none of them is a slash.
abbrev pub NoSlash : List ℕ → Type 0
NoSlash [] = Unit
NoSlash (c ∷ cs) = ((c == b'/') ≡ false) × NoSlash cs

abbrev pub AllNames : List (List ℕ) → Type 0
AllNames [] = Unit
AllNames (n ∷ ns) = ((n ≢ []) × NoSlash n) × AllNames ns

-- `/a/b/c` for the parts a, b and c.
abbrev pub path_of : List (List ℕ) → List ℕ
path_of [] = []
path_of (n ∷ ns) = b'/' ∷ n ++ path_of ns

split_from-name :
    (part name : List ℕ) → NoSlash name → split_from part name ≡ emit (part ++ name) []
unfolding split_from
split_from-name part [] h = rw (append-nil part) refl
split_from-name part (c ∷ cs) (plain, h) =
    rw plain
      (split_from-name (part ++ c ∷ []) cs h ∙ ap (λ p. emit p []) (append_assoc part (c ∷ []) cs))

emit_full : (name : List ℕ) → name ≢ [] → emit name [] ≡ name ∷ []
emit_full [] h = absurd (h refl)
emit_full (c ∷ cs) h = refl

pub one_name : (name : List ℕ) → name ≢ [] → NoSlash name → path_parts name ≡ name ∷ []
unfolding path_parts
one_name name full plain = split_from-name [] name plain ∙ emit_full name full

leading : (b : List ℕ) → path_parts (b'/' ∷ b) ≡ path_parts b
unfolding path_parts split_from
leading b = refl

-- A path that is put together of names, each with a slash before it, is cut into these names.
pub path_parts-path_of :
    (names : List (List ℕ)) → AllNames names → path_parts (path_of names) ≡ names
path_parts-path_of [] h = unfold path_parts split_from in refl
path_parts-path_of (n ∷ []) ((full, plain), h) =
    leading (n ++ []) ∙ ap path_parts (append-nil n) ∙ one_name n full plain
path_parts-path_of (n ∷ m ∷ ns) ((full, plain), h) =
    leading (n ++ path_of (m ∷ ns))
    ∙ path_parts-append n (m ++ path_of ns)
    ∙ ap (λ ps. path_parts n ++ ps)
        (sym (leading (m ++ path_of ns)) ∙ path_parts-path_of (m ∷ ns) h)
    ∙ ap (λ ps. ps ++ m ∷ ns) (one_name n full plain)

-- A slash at either end of a path, and one more slash behind a slash, make no difference to
-- psql_path_to_id: it goes the same way, with the same statements and the same result.
pub psql_path_to_id_slashes :
    (a b : List ℕ)
    → (psql_path_to_id (b'/' ∷ a) ≡ psql_path_to_id a)
      × (psql_path_to_id (a ++ b'/' ∷ []) ≡ psql_path_to_id a)
      × (psql_path_to_id (a ++ b'/' ∷ b'/' ∷ b) ≡ psql_path_to_id (a ++ b'/' ∷ b))
unfolding psql_path_to_id
psql_path_to_id_slashes a b =
    let nothing : path_parts [] ≡ [] = unfold path_parts split_from in refl in
    let last : path_parts (a ++ b'/' ∷ []) ≡ path_parts a =
      path_parts-append a [] ∙ ap (λ ps. path_parts a ++ ps) nothing ∙ append-nil (path_parts a) in
    let double : path_parts (a ++ b'/' ∷ b'/' ∷ b) ≡ path_parts (a ++ b'/' ∷ b) =
      path_parts-append a (b'/' ∷ b)
      ∙ ap (λ ps. path_parts a ++ ps) (leading b)
      ∙ sym (path_parts-append a b) in
    (rw (leading a) refl, rw last refl, rw double refl)
