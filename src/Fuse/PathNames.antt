-- ===== src/Fuse/PathNames.antt =====
-- dirname and basename on a path that is put together of names.
use pgfuse.Base.{ℕ, ◌≡◌, ◌≢◌, refl, sym, ap, ◌∙◌, List, [], ◌∷◌, ◌++◌}
use mathlib.Core.List.{
  reverse, reverse-cons, reverse-append, reverse-reverse, append_assoc, append-nil,
}
use pgfuse.Psql.Path.{path_parts, split_from}
use pgfuse.Psql.Path.Parts.{NoSlash, AllNames, path_of, path_parts-path_of}
use pgfuse.Fuse.Context.{dirname, basename, drop_slashes, drop_part, take_part, or_default}

module _ (ys : List ℕ) where
  drop_slashes-plain : (xs : List ℕ) → NoSlash xs → xs ≢ [] → drop_slashes (xs ++ ys) ≡ xs ++ ys
  drop_slashes-plain [] h full = absurd (full refl)
  drop_slashes-plain (c ∷ cs) (plain, h) full = rw plain refl

  drop_part-plain : (xs : List ℕ) → NoSlash xs → drop_part (xs ++ b'/' ∷ ys) ≡ b'/' ∷ ys
  drop_part-plain [] h = refl
  drop_part-plain (c ∷ cs) (plain, h) = rw plain (drop_part-plain cs h)

  take_part-plain : (xs : List ℕ) → NoSlash xs → take_part (xs ++ b'/' ∷ ys) ≡ xs
  take_part-plain [] h = refl
  take_part-plain (c ∷ cs) (plain, h) = rw plain (ap (λ zs. c ∷ zs) (take_part-plain cs h))

NoSlash-append : (xs ys : List ℕ) → NoSlash xs → NoSlash ys → NoSlash (xs ++ ys)
NoSlash-append [] ys h k = k
NoSlash-append (c ∷ cs) ys (plain, h) k = (plain, NoSlash-append cs ys h k)

NoSlash-reverse : (xs : List ℕ) → NoSlash xs → NoSlash (reverse xs)
NoSlash-reverse [] h = tt
NoSlash-reverse (c ∷ cs) (plain, h) =
    rw (reverse-cons c cs) (NoSlash-append (reverse cs) (c ∷ []) (NoSlash-reverse cs h) (plain, tt))

reverse_full : (xs : List ℕ) → xs ≢ [] → reverse xs ≢ []
reverse_full xs full e = full (sym (reverse-reverse xs) ∙ ap reverse e)

-- A path of names does not end with a slash.
ends_plain :
    (n : List ℕ) (ns : List (List ℕ)) (zs : List ℕ)
    → AllNames (n ∷ ns)
    → drop_slashes (reverse (path_of (n ∷ ns)) ++ zs) ≡ reverse (path_of (n ∷ ns)) ++ zs
ends_plain n [] zs ((full, plain), h) =
    rw (append-nil n, reverse-cons b'/' n, append_assoc (reverse n) (b'/' ∷ []) zs)
      (drop_slashes-plain (b'/' ∷ zs) (reverse n) (NoSlash-reverse n plain) (reverse_full n full))
ends_plain n (m ∷ ms) zs (h, hs) =
    rw
      (
        reverse-append (b'/' ∷ n) (path_of (m ∷ ms)),
        append_assoc (reverse (path_of (m ∷ ms))) (reverse (b'/' ∷ n)) zs,
      )
      (ends_plain m ms (reverse (b'/' ∷ n) ++ zs) hs)

path_of-append :
    (names : List (List ℕ)) (name : List ℕ)
    → path_of (names ++ name ∷ []) ≡ path_of names ++ b'/' ∷ name
path_of-append [] name = ap (λ zs. b'/' ∷ zs) (append-nil name)
path_of-append (n ∷ ns) name =
    ap (λ zs. b'/' ∷ (n ++ zs)) (path_of-append ns name)
    ∙ ap (λ zs. b'/' ∷ zs) (sym (append_assoc n (path_of ns) (b'/' ∷ name)))

or_default_full : (p q : List ℕ) → p ≢ [] → or_default p q ≡ p
or_default_full [] q full = absurd (full refl)
or_default_full (c ∷ cs) q full = refl

module _ (names : List (List ℕ)) (name : List ℕ) (full : name ≢ []) (plain : NoSlash name) where
  reversed : reverse (path_of names ++ b'/' ∷ name) ≡ reverse name ++ b'/' ∷ reverse (path_of names)
  reversed =
      reverse-append (path_of names) (b'/' ∷ name)
      ∙ ap (λ zs. zs ++ reverse (path_of names)) (reverse-cons b'/' name)
      ∙ append_assoc (reverse name) (b'/' ∷ []) (reverse (path_of names))

  -- The last part of the reversed path comes first.
  uncut :
      drop_slashes (reverse (path_of names ++ b'/' ∷ name))
      ≡ reverse name ++ b'/' ∷ reverse (path_of names)
  uncut =
      ap drop_slashes reversed
      ∙ drop_slashes-plain (b'/' ∷ reverse (path_of names)) (reverse name)
          (NoSlash-reverse name plain) (reverse_full name full)

  pub basename-path_of : basename (path_of names ++ b'/' ∷ name) ≡ name
  unfolding basename
  basename-path_of =
      let part : take_part (reverse name ++ b'/' ∷ reverse (path_of names)) ≡ reverse name =
        take_part-plain (reverse (path_of names)) (reverse name) (NoSlash-reverse name plain) in
      rw (uncut, part, reverse-reverse name) (or_default_full name _ full)

  cut :
      drop_slashes (drop_part (drop_slashes (reverse (path_of names ++ b'/' ∷ name))))
      ≡ drop_slashes (reverse (path_of names))
  cut =
      ap (λ zs. drop_slashes (drop_part zs)) uncut
      ∙ ap drop_slashes
          (drop_part-plain (reverse (path_of names)) (reverse name) (NoSlash-reverse name plain))

pub path_parts-dirname :
    (names : List (List ℕ)) (name : List ℕ)
    → AllNames names
    → name ≢ []
    → NoSlash name
    → path_parts (dirname (path_of names ++ b'/' ∷ name)) ≡ names
unfolding dirname
path_parts-dirname [] name h full plain =
    rw (cut [] name full plain) (unfold path_parts split_from in refl)
path_parts-dirname (n ∷ ns) name h full plain =
    let whole : drop_slashes (reverse (path_of (n ∷ ns))) ≡ reverse (path_of (n ∷ ns)) =
      rw (append-nil (reverse (path_of (n ∷ ns)))) at (ends_plain n ns [] h) in
    rw (cut (n ∷ ns) name full plain, whole, reverse-reverse (path_of (n ∷ ns)))
      (path_parts-path_of (n ∷ ns) h)
