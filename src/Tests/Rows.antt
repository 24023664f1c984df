-- ===== src/Tests/Rows.antt =====
-- Times, metadata and paths, at concrete inputs.
use pgfuse.Wire.{big}
use pgfuse.Db.{DataRow}
use pgfuse.Psql.Words.{bigint_columns}
use pgfuse.Psql.Data.{next_data}
use pgfuse.Psql.Path.{psql_path_to_id}
use pgfuse.Psql.Path.Parts.{psql_path_to_id_slashes}
use pgfuse.Tests.{file_row, row_of_f}
use pgfuse.Base.{◌/◌, ◌*◌, ◌≡◌, refl, [], ◌∷◌, arith}
use pgfuse.Wire.{little, Timespec, convert_to_timestamp, convert_from_timestamp}
use pgfuse.Wire.Laws.{
  convert_from_timestamp-convert_to_timestamp, convert_to_timestamp-convert_from_timestamp,
}
use pgfuse.Session.{ok}
use pgfuse.Session.Runs.{Runs}
use pgfuse.Psql.Path.{path_parts}
use pgfuse.Base.{◌++◌}
use pgfuse.Db.{update_meta}
use pgfuse.Session.{◌>>◌}
use pgfuse.Psql.Meta.{PgMeta, set_meta, psql_read_meta, psql_write_meta}
use pgfuse.Psql.Stored.{IsRecent, kept, psql_read_meta-psql_write_meta}
use pgfuse.Psql.Path.Parts.{path_of, path_parts-path_of}
use pgfuse.Base.{ℕ, none, if◌then◌else◌, ◌==◌}
use pgfuse.Db.{Db, select_meta}
use pgfuse.Store.{find_block}
use pgfuse.Psql.Meta.{psql_delete_file}
use pgfuse.Psql.Removed.{psql_delete_file-removes}
use pgfuse.Tests.{answering, file_row, tables, path_f, path_x, row_of_f}

abbrev moment : Timespec
moment = record { tv_sec = 1000000000; tv_nsec = 123456789 }

convert_from_timestamp-convert_to_timestamp_example :
    convert_from_timestamp little (convert_to_timestamp little moment)
    ≡ record { tv_sec = 1000000000; tv_nsec = 123456789 / 1000 * 1000 }
convert_from_timestamp-convert_to_timestamp_example =
    convert_from_timestamp-convert_to_timestamp little moment (omega arith) (omega arith)
      (omega arith)

convert_to_timestamp-convert_from_timestamp_example :
    convert_to_timestamp little (convert_from_timestamp little 1311768467463790320)
    ≡ 1311768467463790320
convert_to_timestamp-convert_from_timestamp_example =
    convert_to_timestamp-convert_from_timestamp little 1311768467463790320 (omega arith)

-- The parent of `/f`; and block 0 is missing, and block 1 is stored.
abbrev block_1 : DataRow
block_1 = record { dir_id = 2; block_no = 1; bytes = 9 ∷ 8 ∷ 7 ∷ 6 ∷ [] }

bigint_columns_example :
    ((m : PgMeta) × Runs answering (psql_read_meta 2) tables (ok m) tables × (m.parent_id ≡ 0))
    × (next_data little 4 0 (block_1 ∷ []) ≡ (9 ∷ 8 ∷ 7 ∷ 6 ∷ [], []))
    × (next_data big 4 0 (block_1 ∷ []) ≡ (0 ∷ 0 ∷ 0 ∷ 0 ∷ [], block_1 ∷ []))
bigint_columns_example =
    bigint_columns answering (λ n. refl) 2 file_row tables 4 0 block_1 [] (omega arith) row_of_f
      (omega arith) (omega arith) (omega arith)

abbrev new_mode : PgMeta
new_mode = record {
  size = 4;
  mode = 33152;
  uid = 7;
  gid = 8;
  ctime = moment;
  mtime = moment;
  atime = moment;
  parent_id = 0;
}

moment-IsRecent : IsRecent moment
moment-IsRecent = record { after = omega arith; far = omega arith; nano = omega arith }

psql_read_meta-psql_write_meta_example :
    Runs answering
      (psql_write_meta 2 new_mode >> psql_read_meta 2)
      tables
      (ok (kept little file_row new_mode))
      (update_meta 2 (set_meta little new_mode) tables)
psql_read_meta-psql_write_meta_example =
    psql_read_meta-psql_write_meta answering (λ n. refl) 2 new_mode file_row tables (omega arith)
      moment-IsRecent moment-IsRecent moment-IsRecent row_of_f

psql_path_to_id_slashes_example :
    (psql_path_to_id (b'/' ∷ path_f) ≡ psql_path_to_id path_f)
    × (psql_path_to_id (path_f ++ b'/' ∷ []) ≡ psql_path_to_id path_f)
    × (psql_path_to_id (path_f ++ b'/' ∷ b'/' ∷ path_x) ≡ psql_path_to_id (path_f ++ b'/' ∷ path_x))
psql_path_to_id_slashes_example = psql_path_to_id_slashes path_f path_x

path_parts-path_of_example :
    path_parts (path_of ((b'f' ∷ []) ∷ (b'x' ∷ []) ∷ [])) ≡ (b'f' ∷ []) ∷ (b'x' ∷ []) ∷ []
path_parts-path_of_example =
    path_parts-path_of ((b'f' ∷ []) ∷ (b'x' ∷ []) ∷ [])
      (((λ p. cc), (refl, tt)), (((λ p. cc), (refl, tt)), tt))

psql_delete_file-removes_example :
    (t : Db) × Runs answering (psql_delete_file 2) tables (ok tt) t
    × (select_meta 2 t ≡ [])
    × ((j c : ℕ)
        → find_block j c t.blocks ≡ (if 2 == j then none else find_block j c tables.blocks))
psql_delete_file-removes_example =
    psql_delete_file-removes answering (λ n. refl) 2 file_row tables row_of_f refl refl
