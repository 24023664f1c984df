-- ===== src/Main/Arguments.antt =====
-- pgfuse_opt_proc, pgfuse.c, lines 1541-1580, over the arguments of a command line.
use pgfuse.Base.{
  ℕ, ◌≡◌, refl, ap, ◌∙◌, Bool-cases, inl, inr, ◌||◌, Bool, true, false, not, some, List, [], ◌∷◌,
  ◌++◌, arith, if◌then◌else◌, str_eq,
}
use pgfuse.Main.{
  PgFuseOptions, default_options, Key, no_threads, pgfuse_opt_proc, OptCall, opt_calls,
}

-- An option of libfuse, or `-v`.
abbrev pub is_flag : Key → Bool
is_flag Key.opt = true
is_flag Key.be_verbose = true
is_flag _ = false

abbrev pub AllFlags : List OptCall → Type 0
AllFlags [] = Unit {0}
AllFlags (c ∷ cs) = (is_flag c.key ≡ true) × AllFlags cs

-- Whether `-s` is one of them.
abbrev is_s : Key → List ℕ → Bool
is_s Key.opt arg = str_eq arg no_threads
is_s _ arg = false

abbrev pub has_s : List OptCall → Bool
has_s [] = false
has_s (c ∷ cs) = is_s c.key c.arg || has_s cs

abbrev is_v : Key → Bool
is_v Key.be_verbose = true
is_v _ = false

abbrev pub has_v : List OptCall → Bool
has_v [] = false
has_v (c ∷ cs) = is_v c.key || has_v cs

-- What flags make of the options.
abbrev with_flags : List OptCall → PgFuseOptions → PgFuseOptions
with_flags cs o = record o {
  multi_threaded = if has_s cs then false else o.multi_threaded;
  verbose = if has_v cs then true else o.verbose;
}

abbrev pub nonopt_call : List ℕ → OptCall
nonopt_call arg = record { given = true; arg = arg; key = Key.nonopt }

flag_step :
    (given : Bool) (arg : List ℕ) (key : Key) (rest : List OptCall) (o : PgFuseOptions)
    → is_flag key ≡ true
    → opt_calls o (record { given = given; arg = arg; key = key } ∷ rest)
      ≡ opt_calls (with_flags (record { given = given; arg = arg; key = key } ∷ []) o) rest
unfolding opt_calls pgfuse_opt_proc
flag_step given arg Key.opt rest o h = elim (Bool-cases (str_eq arg no_threads)) [
  | inl e ↦ simp e refl
  | inr e ↦ simp e refl
]
flag_step given arg Key.be_verbose rest o h = refl
flag_step given arg Key.nonopt rest o h = cc
flag_step given arg Key.help rest o h = cc
flag_step given arg Key.version rest o h = cc
flag_step given arg Key.other rest o h = cc

flags-flags :
    (c : OptCall) (cs : List OptCall) (o : PgFuseOptions)
    → with_flags cs (with_flags (c ∷ []) o) ≡ with_flags (c ∷ cs) o
flags-flags c cs o = ground arith

flags_first :
    (cs rest : List OptCall) (o : PgFuseOptions)
    → AllFlags cs
    → opt_calls o (cs ++ rest) ≡ opt_calls (with_flags cs o) rest
flags_first [] rest o h = refl
flags_first (c ∷ cs) rest o (h, hs) =
    flag_step c.given c.arg c.key (cs ++ rest) o h
    ∙ flags_first cs rest (with_flags (c ∷ []) o) hs
    ∙ ap (λ o'. opt_calls o' rest) (flags-flags c cs o)

flags_only :
    (cs : List OptCall) (o : PgFuseOptions) → AllFlags cs → opt_calls o cs ≡ (true, with_flags cs o)
unfolding opt_calls
flags_only [] o h = refl
flags_only (c ∷ cs) o (h, hs) =
    flag_step c.given c.arg c.key cs o h
    ∙ flags_only cs (with_flags (c ∷ []) o) hs
    ∙ ap (λ o'. (true, o')) (flags-flags c cs o)

module _ (before between after : List OptCall) (a b : List ℕ) (hb : AllFlags before)
    (hm : AllFlags between) (ha : AllFlags after) where
  -- Of two arguments that are no options, with any flags around them and memory for both, the first
  -- is the connection and the second the mount point; the mount is single-threaded if `-s` is among
  -- the flags, and verbose if `-v` is.
  pub opt_calls_two :
      opt_calls default_options (before ++ (nonopt_call a ∷ (between ++ (nonopt_call b ∷ after))))
      ≡ (
        true,
        record default_options {
          conninfo = some a;
          mountpoint = some b;
          multi_threaded = not (has_s before || has_s between || has_s after);
          verbose = has_v before || has_v between || has_v after;
        },
      )
  unfolding opt_calls pgfuse_opt_proc
  opt_calls_two =
      flags_first before _ default_options hb
      ∙ flags_first between _ _ hm
      ∙ flags_only after _ ha
      ∙ ground arith

  -- A third argument that is no option makes the parsing fail.
  pub opt_calls_three :
      (c : List ℕ) (rest : List OptCall)
      → (opt_calls default_options (
          before
          ++ (nonopt_call a ∷ (between ++ (nonopt_call b ∷ (after ++ (nonopt_call c ∷ rest))))))).0
        ≡ false
  unfolding opt_calls pgfuse_opt_proc
  opt_calls_three c rest =
      ap (λ r. r.0)
        (flags_first before _ default_options hb
          ∙ flags_first between _ _ hm
          ∙ flags_first after _ _ ha)
      ∙ refl
