-- ===== src/Tests/Created.antt =====
-- A new file in the root, at a concrete input.
use pgfuse.Base.{ℕ, ◌≡◌, refl, List, [], ◌∷◌, arith}
use pgfuse.Db.{DirRow, select_child, select_meta}
use pgfuse.Session.{ok}
use pgfuse.Session.Runs.{Runs}
use pgfuse.Psql.Meta.{new_row, to_meta}
use pgfuse.Psql.Path.{s_ifdir, path_parts, split_from, psql_read_meta_from_path}
use pgfuse.Psql.Path.Leads.{Leads, here, down, psql_read_meta_from_path-Leads}
use pgfuse.Psql.Inserted.{IsNew}
use pgfuse.Fuse.Create.{pgfuse_create}
use pgfuse.Base.{◌<◌}
use pgfuse.Session.{◌>>=◌}
use pgfuse.Db.{count_children}
use pgfuse.Psql.Path.{psql_path_to_id}
use pgfuse.Psql.Path.Leads.{path_past_file}
use pgfuse.Fuse.Context.{root_path}
use pgfuse.Fuse.Create.{pgfuse_mkdir}
use pgfuse.Fuse.Remove.{pgfuse_unlink, pgfuse_rmdir}
use pgfuse.Fuse.Committed.{IsCommitted}
use pgfuse.Fuse.Unlinked.{IsUnused, pgfuse_unlink-pgfuse_create}
use pgfuse.Fuse.Errors.{IsRefused, Finds, rmdir_not_empty, create_existing, mkdir_existing}
use pgfuse.Fuse.Places.{file_of, IsPlace}
use pgfuse.Tests.{answering, mount, root_row, tables, session, path_x, path_f, file_row, row_of_f}

abbrev name_x : List ℕ
name_x = b'x' ∷ []

abbrev new_file : DirRow
new_file = file_of answering 3 0 name_x 33188 root_row

root-IsPlace : IsPlace tables [] 0 root_row
unfolding select_meta
root-IsPlace = record {
  mode = s_ifdir;
  leads = here 0 s_ifdir;
  is_dir = refl;
  one = refl;
  parent_dir = refl;
  small = omega arith;
}

new_file-IsNew : IsNew tables new_file
unfolding select_meta select_child new_row
new_file-IsNew = record { free_name = refl; free_id = refl }

Leads-to_f : Leads tables 0 s_ifdir (path_parts path_f) 2 33188
unfolding path_parts split_from select_child
Leads-to_f = down 0 s_ifdir 2 33188 (b'f' ∷ []) [] file_row refl refl (here 2 33188)

psql_read_meta_from_path-Leads_example :
    Runs answering
      (psql_read_meta_from_path path_f)
      tables
      (ok (2, to_meta answering.order file_row))
      tables
psql_read_meta_from_path-Leads_example =
    psql_read_meta_from_path-Leads (λ n. refl) tables path_f 2 33188 file_row (omega arith) row_of_f
      Leads-to_f

new_file-IsUnused : IsUnused tables 3
new_file-IsUnused = record { no_child = refl; no_block = refl }

pgfuse_unlink-pgfuse_create_example :
    IsCommitted tt tables
      ((pgfuse_create mount path_x 33188 >>= λ _. pgfuse_unlink mount path_x) answering session)
pgfuse_unlink-pgfuse_create_example =
    pgfuse_unlink-pgfuse_create answering (λ n. refl) mount (λ n. refl) session [] name_x 33188 0
      root_row refl refl tt (λ e. cc) (refl, tt) root-IsPlace new_file-IsNew new_file-IsUnused refl
      (omega arith)

f-Finds : Finds tables path_f 2 file_row
f-Finds = record { mode = 33188; leads = Leads-to_f; one = row_of_f; small = omega arith }

create_existing_example : IsRefused session 17 (pgfuse_create mount path_f 33188 answering session)
create_existing_example =
    create_existing answering (λ n. refl) mount (λ n. refl) session path_f 2 file_row refl refl
      f-Finds 33188

f_taken : select_child (b'f' ∷ []) 0 tables ≡ file_row ∷ []
unfolding select_child
f_taken = refl

mkdir_existing_example : IsRefused session 5 (pgfuse_mkdir mount path_f 16877 answering session)
mkdir_existing_example =
    mkdir_existing answering (λ n. refl) mount (λ n. refl) session [] (b'f' ∷ []) 0 root_row
      file_row refl refl tt (λ e. cc) (refl, tt) root-IsPlace f_taken 16877

-- The root, which is the parent of the file and of itself.
root-Finds : Finds tables root_path 0 root_row
unfolding select_meta path_parts split_from
root-Finds = record { mode = s_ifdir; leads = here 0 s_ifdir; one = refl; small = omega arith }

root_parent : 0 < count_children 0 tables
unfolding count_children
root_parent = omega arith

rmdir_not_empty_example : IsRefused session 39 (pgfuse_rmdir mount root_path answering session)
rmdir_not_empty_example =
    rmdir_not_empty answering (λ n. refl) mount (λ n. refl) session root_path 0 root_row refl refl
      root-Finds refl root_parent

-- `/f/x`.
abbrev path_f_x : List ℕ
path_f_x = b'/' ∷ b'f' ∷ b'/' ∷ b'x' ∷ []

two_parts : path_parts path_f_x ≡ (b'f' ∷ []) ∷ name_x ∷ []
unfolding path_parts split_from
two_parts = refl

Leads-f : Leads tables 0 s_ifdir ((b'f' ∷ []) ∷ []) 2 33188
unfolding select_child
Leads-f = down 0 s_ifdir 2 33188 (b'f' ∷ []) [] file_row refl refl (here 2 33188)

path_past_file_example : Runs answering (psql_path_to_id path_f_x) tables (ok 2) tables
path_past_file_example =
    path_past_file (λ n. refl) tables path_f_x ((b'f' ∷ []) ∷ []) (name_x ∷ []) 2 33188 two_parts
      Leads-f refl
