-- ===== src/Tests/Hooks.antt =====
-- The hooks, at concrete inputs.
use pgfuse.Psql.Resized.{Resized}
use pgfuse.Tests.{file_times}
use pgfuse.Base.{◌≢◌, ◌≡◌, refl, arith}
use pgfuse.Db.{Db, select_child}
use pgfuse.Session.{ok, err, idle, pure, raise, ◌>>=◌, allocate, execute, select}
use pgfuse.Psql.Data.Written.{Written}
use pgfuse.Psql.Meta.{one_row}
use pgfuse.Psql.Path.{psql_read_meta_from_path, psql_path_to_id, path_parts, split_from, walk}
use pgfuse.Fuse.Rename.{pgfuse_rename}
use pgfuse.Fuse.Leak.{begun, pgfuse_rename_leaks}
use pgfuse.Fuse.Oper.{Call, perform}
use pgfuse.Fuse.Atomic.{IsAtomic, perform-IsAtomic}
use pgfuse.Fuse.ReadOnly.{perform_read_only}
use pgfuse.Fuse.FileIo.{pgfuse_write}
use pgfuse.Fuse.Committed.{pgfuse_write-Written}
use pgfuse.Tests.{
  answering, silent, mount, mount_ro, file_row, tables, session, path_f, path_x, six,
  tables-IsStored, small_request, row_of_f,
}

perform-IsAtomic_example : IsAtomic session (perform mount (Call.write 2 six 6 3) silent session)
perform-IsAtomic_example =
    perform-IsAtomic mount silent (λ n. refl) session refl (Call.write 2 six 6 3) refl

perform_read_only_example :
    (perform mount_ro (Call.chmod path_f 33152) answering session).1.base ≡ tables
perform_read_only_example =
    perform_read_only mount_ro (Call.chmod path_f 33152) answering session refl refl refl

pgfuse_write-Written_example :
    ((pgfuse_write mount 2 six 6 3 answering session).0 ≡ ok 6)
    × (t : Db) × Written 4 2 3 6 six tables t
    × ((pgfuse_write mount 2 six 6 3 answering session).1.base.blocks ≡ t.blocks)
    × Resized 2 9 file_row tables (pgfuse_write mount 2 six 6 3 answering session).1.base
pgfuse_write-Written_example =
    pgfuse_write-Written answering (λ n. refl) mount (λ n. refl) 2 six 6 3 file_row session refl
      refl (omega arith) (omega arith) row_of_f file_times small_request (omega arith)
      tables-IsStored

-- A rename whose source is missing.
missing_x : (psql_read_meta_from_path path_x answering (begun mount session)).0 ≡ err 2
unfolding psql_read_meta_from_path psql_path_to_id path_parts split_from walk select_child select
    execute allocate one_row ◌>>=◌ pure raise
missing_x = refl

pgfuse_rename_leaks_example :
    ((pgfuse_rename mount path_x path_f answering session).0 ≡ err 2)
    × ((pgfuse_rename mount path_x path_f answering session).1.tx ≢ idle)
    × ((pgfuse_rename mount path_x path_f answering session).1.leases ≡ 1)
pgfuse_rename_leaks_example =
    pgfuse_rename_leaks mount answering (λ n. refl) session path_x path_f 2 refl refl missing_x
