-- ===== src/Filesystem/Tests.antt =====
-- The theorems about the filesystem at concrete states, and runs of its operations.
use quillos.Prelude.{
  ℕ, ◌≡◌, ◌⊎◌, refl, Bool, true, some, List, [], ◌∷◌, arith, take, replicate, ◌>>=◌, str_eq,
}
use quillos.Filesystem.Types.{file_regular, file_directory, no_entry, Filesystem}
use quillos.Filesystem.Paths.{root, split_path, normalize_path, last_slash, trim}
use quillos.Filesystem.{
  init, mkdir, touch, write_file, write_found, read_file, ls, ls_loop, emit_all, rm, find_entry,
  find_free_slot, has_parent, make_at,
}
use quillos.Filesystem.Table.{IsValid}
use quillos.Filesystem.Spec.{mkdir_op, write_op, run, Kept, Changed}
use quillos.Filesystem.Refinement.{Reached, starts, does, run_refines, Reached-IsValid}
use quillos.Filesystem.Staying.{Stays, Reached-Stays}
use quillos.Filesystem.Contents.{read_file-write_file}
use quillos.Filesystem.Buffers.{HasShortNames, run-returns}

abbrev path_d : List ℕ
path_d = b'/' ∷ b'd' ∷ []

abbrev path_d_f : List ℕ
path_d_f = b'/' ∷ b'd' ∷ b'/' ∷ b'f' ∷ []

-- `/d//f`
abbrev path_d__f : List ℕ
path_d__f = b'/' ∷ b'd' ∷ b'/' ∷ b'/' ∷ b'f' ∷ []

split_run : split_path (b'/' ∷ b'd' ∷ b'/' ∷ b'f' ∷ b'/' ∷ []) ≡ some (path_d, b'f' ∷ [])
unfolding split_path normalize_path last_slash trim
split_run = refl

ls_run :
    (do
      (a, _) ← mkdir init (some path_d)
      (b, _) ← write_file a (some path_d_f) (some (b'x' ∷ []))
      ls b (some path_d) (some 100))
    ≡ some (some (1, b'f' ∷ b' ' ∷ b'f' ∷ b'\n' ∷ []))
unfolding init mkdir write_file write_found touch make_at has_parent find_entry find_free_slot ls
    ls_loop emit_all split_path normalize_path last_slash trim str_eq
ls_run = refl

read_run :
    (do
      (a, _) ← mkdir init (some path_d)
      (b, _) ← write_file a (some path_d_f) (some (b'x' ∷ []))
      read_file b (some path_d_f) (some 100))
    ≡ some (some (b'x' ∷ []))
unfolding init mkdir write_file write_found touch make_at has_parent find_entry find_free_slot
    read_file split_path normalize_path last_slash trim str_eq
read_run = refl

-- `/d` is removed although it holds the file that was made as `/d//f`.
rm_run :
    (do
      (a, _) ← mkdir init (some path_d)
      (b, _) ← touch a (some path_d__f)
      (c, ok) ← rm b (some path_d)
      some ok)
    ≡ some true
unfolding init mkdir touch make_at has_parent find_entry find_free_slot rm split_path normalize_path
    last_slash trim str_eq
rm_run = refl

abbrev with_d : Filesystem
with_d = record {
  entries =
      record no_entry { name = root; kind = file_directory }
      ∷ record no_entry { name = b'd' ∷ []; parent = root; kind = file_directory }
      ∷ replicate 62 no_entry;
}

mkdir_run : run (mkdir_op (some path_d)) init ≡ some (with_d, true)
unfolding init mkdir make_at has_parent find_entry find_free_slot split_path normalize_path
    last_slash trim str_eq
mkdir_run = refl

with_d-Reached : Reached with_d
with_d-Reached = does (mkdir_op (some path_d)) (with_d, true) starts mkdir_run

Reached-Stays_example : IsValid with_d × Stays with_d
Reached-Stays_example = Reached-Stays with_d-Reached

with_d-IsValid : IsValid with_d
with_d-IsValid = Reached-IsValid with_d-Reached

abbrev with_d_f : Filesystem
with_d_f = record {
  entries =
      record no_entry { name = root; kind = file_directory }
      ∷ record no_entry { name = b'd' ∷ []; parent = root; kind = file_directory }
      ∷ record no_entry {
        name = b'f' ∷ [];
        parent = path_d;
        kind = file_regular;
        content = b'x' ∷ replicate 1023 0;
        size = 1;
      }
      ∷ replicate 61 no_entry;
}

write_run : write_file with_d (some path_d_f) (some (b'x' ∷ [])) ≡ some (with_d_f, true)
unfolding write_file write_found touch make_at has_parent find_entry find_free_slot split_path
    normalize_path last_slash trim str_eq
write_run = refl

run_refines_example :
    Kept (write_op (some path_d_f) (some (b'x' ∷ []))) with_d (with_d_f, true)
    ⊎ Changed (write_op (some path_d_f) (some (b'x' ∷ []))) with_d (with_d_f, true)
run_refines_example =
    run_refines (write_op (some path_d_f) (some (b'x' ∷ []))) with_d (with_d_f, true) with_d-IsValid
      write_run

read_file-write_file_example :
    read_file with_d_f (some path_d_f) (some 1024) ≡ some (some (take 1023 (b'x' ∷ [])))
read_file-write_file_example =
    read_file-write_file with_d with_d_f path_d_f (b'x' ∷ []) 1024 with_d-IsValid write_run
      (omega arith)

normal_run : normalize_path path_d_f ≡ some path_d_f
unfolding normalize_path trim
normal_run = refl

split_d_f : split_path path_d_f ≡ some (path_d, b'f' ∷ [])
unfolding split_path normalize_path last_slash trim
split_d_f = refl

short_names : HasShortNames path_d_f
short_names = λ i h. absurd (omega arith)

run-returns_example :
    (r : Filesystem × Bool) × (run (write_op (some path_d_f) (some (b'y' ∷ []))) with_d ≡ some r)
run-returns_example =
    run-returns (write_op (some path_d_f) (some (b'y' ∷ []))) with_d path_d_f refl (omega arith)
      short_names
