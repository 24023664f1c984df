-- ===== src/Tests/Blocks.antt =====
-- The blocks of a file, at concrete inputs.
use pgfuse.Psql.Resized.{Resized}
use pgfuse.Tests.{file_times}
use pgfuse.Base.{ℕ, some, none, ltb, if◌then◌else◌, ◌/◌, ◌+◌, ◌≡◌, refl, List, [], ◌∷◌, arith}
use pgfuse.Wire.{little}
use pgfuse.Block.{compute_block_info}
use pgfuse.Block.Bounds.{Covers, compute_block_info-Covers}
use pgfuse.Db.{Db}
use pgfuse.Session.{fault}
use pgfuse.Psql.Data.Unaligned.{psql_read_buf_overrun}
use pgfuse.Session.{ok}
use pgfuse.Session.Runs.{Runs}
use pgfuse.Psql.Data.{write_text, psql_write_buf}
use pgfuse.Psql.Data.Splice.{Splices, write_text-Splices}
use pgfuse.Psql.Data.Written.{Written}
use pgfuse.Psql.Data.WriteBuf.{psql_write_buf-Written}
use pgfuse.Db.{update_meta}
use pgfuse.Psql.Meta.{to_meta, set_meta}
use pgfuse.Psql.Data.{psql_truncate}
use pgfuse.Psql.Data.Cut.{Truncated}
use pgfuse.Psql.Data.Truncate.{psql_truncate-Truncated, psql_truncate_to_zero}
use pgfuse.Base.{byte_or, inr, length}
use pgfuse.Store.{content}
use pgfuse.Psql.Data.{psql_read_buf}
use pgfuse.Psql.Data.ReadBuf.{psql_read_buf-content}
use pgfuse.Psql.Data.Readable.{NoHole}
use pgfuse.Psql.Data.{update_again}
use pgfuse.Psql.Data.Again.{update_again_ends}
use pgfuse.Tests.{
  session, answering, file_row, tables, six, tables-IsStored, small_request, large_request,
  row_of_f,
}

psql_write_buf-Written_example :
    (d' : Db) × Runs answering (psql_write_buf 4 2 six 3 6) tables (ok 6) d'
    × Written 4 2 3 6 six tables d'
psql_write_buf-Written_example =
    psql_write_buf-Written answering (λ n. refl) 4 2 (omega arith) (omega arith) six 3 6 tables
      small_request (omega arith) tables-IsStored refl

compute_block_info-Covers_example : Covers 4 3 6 (compute_block_info 4 3 6)
compute_block_info-Covers_example = compute_block_info-Covers 4 3 6 small_request (omega arith)

write_text-Splices_example :
    (text : List ℕ → List ℕ) × (write_text 4 1 2 (5 ∷ 6 ∷ []) ≡ some text)
    × Splices 4 1 2 (5 ∷ 6 ∷ 7 ∷ []) text
write_text-Splices_example = write_text-Splices 4 1 2 (5 ∷ 6 ∷ 7 ∷ []) (omega arith) (omega arith)

psql_truncate-Truncated_example :
    (t : Db) × Truncated 4 2 3 tables t
    × (d' : Db) × Runs answering (psql_truncate 4 2 3) tables (ok tt) d'
    × (d'.blocks ≡ t.blocks)
    × Resized 2 3 file_row tables d'
psql_truncate-Truncated_example =
    psql_truncate-Truncated {env = answering} (λ n. refl) 4 2 3 file_row tables large_request
      (omega arith) (omega arith) row_of_f file_times tables-IsStored

psql_truncate_to_zero_example :
    (t : Db) × Truncated 4 2 4 tables t
    × Runs answering
        (psql_truncate 4 2 0)
        tables
        (ok tt)
        (update_meta 2 (set_meta little (record (to_meta little file_row) { size = 0 })) t)
psql_truncate_to_zero_example =
    psql_truncate_to_zero answering (λ n. refl) 4 2 file_row tables (omega arith) (omega arith)
      row_of_f tables-IsStored

-- The block of `/f` is there.
pub f-NoHole : NoHole 4 2 0 3 tables
f-NoHole p low high q =
    let first : p / 4 ≡ 0 = omega arith in
    let gone : some (9 ∷ 8 ∷ 7 ∷ 6 ∷ []) ≡ none = rw first at q in cc

psql_read_buf-content_example :
    (buf' : List ℕ) × Runs answering (psql_read_buf 4 2 six 0 3) tables (ok (3, buf')) tables
    × (length buf' ≡ 6)
    × ((k : ℕ) → byte_or buf' k ≡ (if ltb k 3 then content 4 tables 2 (0 + k) else byte_or six k))
psql_read_buf-content_example =
    psql_read_buf-content answering (λ n. refl) 4 2 0 3 six file_row tables (omega arith) row_of_f
      (omega arith) (omega arith) large_request (omega arith) refl (omega arith) tables-IsStored
      (omega arith, tt) (omega arith) (inr f-NoHole)

update_again_ends_example :
    update_again 5 4 2 1 3 (λ old. old) answering session
    ≡ update_again 2 4 2 1 3 (λ old. old) answering session
update_again_ends_example = update_again_ends 4 2 1 3 (λ old. old) answering 3 session

-- From the last byte of the block on.
psql_read_buf_overrun_example : Runs answering (psql_read_buf 4 2 six 3 6) tables fault tables
psql_read_buf_overrun_example =
    psql_read_buf_overrun answering (λ n. refl) 4 2 3 6 six file_row tables (omega arith) row_of_f
      (omega arith) (omega arith) small_request (omega arith) (omega arith) (omega arith)
