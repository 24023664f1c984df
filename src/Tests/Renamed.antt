-- ===== src/Tests/Renamed.antt =====
-- A file with a new name, at a concrete input.
use pgfuse.Base.{ℕ, ◌≡◌, refl, List, [], ◌∷◌, arith}
use pgfuse.Wire.Laws.{ntohl-column64}
use pgfuse.Db.{select_child, select_meta}
use pgfuse.Session.{ok}
use pgfuse.Psql.Meta.{to_meta}
use pgfuse.Psql.Moved.{moved}
use pgfuse.Psql.Path.{s_ifdir}
use pgfuse.Psql.Path.Leads.{Leads, here}
use pgfuse.Fuse.Rename.{pgfuse_rename}
use pgfuse.Fuse.Places.{IsPlace}
use pgfuse.Fuse.Renamed.{IsFile, IsDir, pgfuse_rename-Leads}
use pgfuse.Tests.{answering, mount, root_row, file_row, tables, session, path_f, row_of_f}

abbrev name_f : List ℕ
name_f = b'f' ∷ []

abbrev name_y : List ℕ
name_y = b'y' ∷ []

at_root : IsPlace tables [] 0 root_row
unfolding select_meta
at_root = record {
  mode = s_ifdir;
  leads = here 0 s_ifdir;
  is_dir = refl;
  one = refl;
  parent_dir = refl;
  small = omega arith;
}

f-IsFile : IsFile tables name_f 0 file_row
unfolding select_child
f-IsFile = record { child = refl; one = row_of_f; file = refl; small = omega arith }

root-IsDir : IsDir tables 0
unfolding select_meta
root-IsDir = record { row = root_row; one = refl; is_dir = refl; small = omega arith }

f_parent : (to_meta answering.order file_row).parent_id ≡ 0
unfolding to_meta
f_parent = ntohl-column64 answering.order 0 (omega arith)

parent_checked : IsDir tables (to_meta answering.order file_row).parent_id
parent_checked = rw f_parent root-IsDir

y_free : select_child name_y 0 tables ≡ []
unfolding select_child
y_free = refl

pgfuse_rename-Leads_example :
    ((pgfuse_rename mount path_f (b'/' ∷ name_y) answering session).0 ≡ ok tt)
    × ((pgfuse_rename mount path_f (b'/' ∷ name_y) answering session).1.base
        ≡ moved 2 0 name_y tables)
    × Leads (moved 2 0 name_y tables) 0 s_ifdir (name_y ∷ []) 2 33188
    × (select_child name_f 0 (moved 2 0 name_y tables) ≡ [])
pgfuse_rename-Leads_example =
    pgfuse_rename-Leads answering (λ n. refl) mount (λ n. refl) session [] [] name_f name_y 0 0
      root_row root_row file_row refl refl
      (record { parts = tt; full = λ e. cc; plain = (refl, tt) })
      (record { parts = tt; full = λ e. cc; plain = (refl, tt) }) at_root at_root f-IsFile
      parent_checked y_free
