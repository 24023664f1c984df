-- ===== src/Tests/Begin.antt =====
-- The start of a mount, at concrete inputs.
use pgfuse.Base.{none, some, ◌≡◌, refl, true, false, [], ◌∷◌}
use pgfuse.Fuse.Context.{PgFuseData}
use pgfuse.Main.{PgFuseOptions, default_options, Tested}
use pgfuse.Main.{Key, OptCall, no_threads, opt_calls}
use pgfuse.Main.Arguments.{nonopt_call, opt_calls_two, opt_calls_three}

-- A mount of the tables with the block size four.
abbrev options : PgFuseOptions
options = record default_options { conninfo = some (b'd' ∷ []); block_size = 4; read_only = true }

abbrev tested : Tested
tested = record { connected = true; integer_datetimes = some (b'o' ∷ b'n' ∷ []) }

abbrev mounted : PgFuseData
mounted = record {
  conninfo = some (b'd' ∷ []);
  mountpoint = none;
  verbose = false;
  read_only = true;
  multi_threaded = true;
  block_size = 4;
}

-- `-s` and `-v`.
abbrev flag_s : OptCall
flag_s = record { given = true; arg = no_threads; key = Key.opt }

abbrev flag_v : OptCall
flag_v = record { given = true; arg = b'-' ∷ b'v' ∷ []; key = Key.be_verbose }

opt_calls_two_example :
    opt_calls default_options
      (flag_s ∷ nonopt_call (b'd' ∷ []) ∷ flag_v ∷ nonopt_call (b'm' ∷ []) ∷ [])
    ≡ (
      true,
      record default_options {
        conninfo = some (b'd' ∷ []);
        mountpoint = some (b'm' ∷ []);
        multi_threaded = false;
        verbose = true;
      },
    )
opt_calls_two_example =
    opt_calls_two (flag_s ∷ []) (flag_v ∷ []) [] (b'd' ∷ []) (b'm' ∷ []) (refl, tt) (refl, tt) tt

opt_calls_three_example :
    (opt_calls default_options
      (flag_s ∷ nonopt_call (b'd' ∷ []) ∷ nonopt_call (b'm' ∷ []) ∷ nonopt_call (b'x' ∷ []) ∷ [])).0
    ≡ false
opt_calls_three_example =
    opt_calls_three (flag_s ∷ []) [] [] (b'd' ∷ []) (b'm' ∷ []) (refl, tt) tt tt (b'x' ∷ []) []
