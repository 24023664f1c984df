-- ===== src/Tests/Files.antt =====
-- An open file as an array of bytes, at a concrete input.
use pgfuse.Base.{ℕ, inr, refl, List, [], ◌∷◌, arith}
use pgfuse.Store.{content}
use pgfuse.Fuse.FileIo.{pgfuse_read}
use pgfuse.Fuse.Committed.{IsCommitted}
use pgfuse.Fuse.FileSpec.Reads.{IsRead, pgfuse_read-Represents}
use pgfuse.Tests.Blocks.{f-NoHole}
use pgfuse.Fuse.FileSpec.{File, Request, write_at, cut_to, apply_all, serve, Represents}
use pgfuse.Fuse.FileSpec.Refines.{Served, serve_refines}
use pgfuse.Tests.{
  answering, mount, file_row, tables, session, six, tables-IsStored, small_request, large_request,
  row_of_f,
}

abbrev file_f : File
file_f = record { size = 4; byte = content 4 tables 2 }

file_f-Represents : Represents 4 2 tables file_f
file_f-Represents = record {
  stored = tables-IsStored;
  row = file_row;
  one = row_of_f;
  sized = refl;
  bytes = λ p lt. refl;
}

-- A write across the end of the file, and then a cut.
abbrev requests : List Request
requests = write_at six 6 3 ∷ cut_to 3 ∷ []

serve_refines_example :
    Served 4 2 session (apply_all requests file_f) (serve mount 2 requests answering session)
serve_refines_example =
    serve_refines answering (λ n. refl) mount (λ n. refl) refl 2 (omega arith) (omega arith)
      requests session file_f refl refl
      ((small_request, omega arith), ((large_request, omega arith), tt)) file_f-Represents

pgfuse_read-Represents_example :
    (buf' : List ℕ) × IsCommitted (3, buf') tables (pgfuse_read mount 2 six 3 0 answering session)
    × IsRead file_f 0 3 six buf'
pgfuse_read-Represents_example =
    pgfuse_read-Represents answering (λ n. refl) mount (λ n. refl) 2 six 3 0 session file_f refl
      (omega arith) (omega arith) file_f-Represents (omega arith) (omega arith) large_request
      (omega arith) refl (omega arith) (omega arith, tt) (omega arith) (inr f-NoHole)
