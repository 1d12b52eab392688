-- ===== src/Filesystem.antt =====
-- kernel/filesystem.cpp and filesystem.h: the in-memory filesystem.
--
-- A file or a directory is an entry of one table, with the text of its parent's path. A null pointer
-- is `none`; a call that writes past the end of a buffer on the stack or of the caller gives `none`
-- as its outcome. The console log is left out.
pub mod Types
pub mod Paths
pub mod Table
pub mod Changes
pub mod Making
pub mod Spec
pub mod Writing
pub mod Refinement
pub mod Contents
pub mod Buffers
pub mod Staying
pub mod Splitting
mod Tests
use quillos.Prelude.{
  ℕ, zero, suc, ◌+◌, ◌-◌, ◌%◌, ◌^◌, ◌≤◌, ◌<◌, ◌≡◌, Bool, true, false, not, ◌&&◌, ◌||◌, Option, none,
  some, List, [], ◌∷◌, ◌++◌, length, get_or, take, replicate, find_index, modify, ltb, leb, ◌==◌,
  if◌then◌else◌, sub32, u32_mod, ◌>>=◌, ◌>>◌,
}
use Types.{
  FileType, file_unused, file_regular, file_directory, is_unused, is_regular, is_directory,
  max_files, max_file_data, FileEntry, no_entry, Filesystem,
}
use Paths.{slash, root, fs_strcmp, normalize_path, split_path}

-- `entries[i]`
abbrev pub entry : Filesystem → ℕ → FileEntry
entry fs i = get_or fs.entries i no_entry

-- `entries[i] = f(entries[i])`
abbrev pub update : Filesystem → ℕ → (FileEntry → FileEntry) → Filesystem
update fs i f = record { entries = modify no_entry fs.entries i f }

unfoldable pub init : Filesystem
init = record {
  entries = record no_entry { name = root; kind = file_directory } ∷ replicate 63 no_entry;
}

abbrev pub is_at : List ℕ → List ℕ → FileEntry → Bool
is_at parent name e = not (is_unused e.kind) && fs_strcmp e.name name && fs_strcmp e.parent parent

-- `none` is -1.
unfoldable pub find_entry : Filesystem → List ℕ → List ℕ → Option ℕ
find_entry fs parent name = find_index (is_at parent name) fs.entries

unfoldable pub find_free_slot : Filesystem → Option ℕ
find_free_slot fs = find_index (λ (e : FileEntry). is_unused e.kind) fs.entries

abbrev pub is_found : Option ℕ → Bool
is_found none = false
is_found (some i) = true

abbrev pub path_exists : Filesystem → List ℕ → List ℕ → Bool
path_exists fs parent name = is_found (find_entry fs parent name)

-- `path[0] == '/'`
abbrev pub is_absolute : List ℕ → Bool
is_absolute path = get_or path 0 0 == slash

abbrev directory_at : Filesystem → Option ℕ → Bool
directory_at fs none = false
directory_at fs (some i) = is_directory (entry fs i).kind

-- The check of `mkdir` and `touch` that the parent is a directory.
unfoldable pub has_parent : Filesystem → List ℕ → Option Bool
unfolding find_entry split_path
has_parent fs parent =
    if fs_strcmp parent root
    then some true
    else do (pp, pn) ← split_path parent; some (directory_at fs (find_entry fs pp pn))

-- The tests of `mkdir` and `touch` behind that for the parent, on what `find_free_slot` and
-- `find_entry` give: the new state and what the call returns.
abbrev pub place_entry : Filesystem → (FileEntry → FileEntry) → Option ℕ → Filesystem × Bool
place_entry fs make none = (fs, false)
place_entry fs make (some slot) = (update fs slot make, true)

abbrev pub add_unless : Filesystem → Bool → (FileEntry → FileEntry) → Option ℕ → Filesystem × Bool
add_unless fs if_present make (some i) = (fs, if_present)
add_unless fs if_present make none = place_entry fs make (find_free_slot fs)

abbrev pub add_entry :
    Filesystem → List ℕ → List ℕ → Bool → (FileEntry → FileEntry) → Filesystem × Bool
add_entry fs parent name if_present make = add_unless fs if_present make (find_entry fs parent name)

abbrev pub new_directory : List ℕ → List ℕ → FileEntry → FileEntry
new_directory parent name e = record e {
  kind = file_directory;
  name = name;
  parent = parent;
  size = 0;
}

abbrev pub new_file : List ℕ → List ℕ → FileEntry → FileEntry
new_file parent name e = record e {
  kind = file_regular;
  name = name;
  parent = parent;
  size = 0;
  content = replicate max_file_data 0;
}

-- `mkdir` and `touch` from the split of the normalized path on.
unfoldable pub make_at :
    Filesystem
    → List ℕ
    → Bool
    → (List ℕ → List ℕ → FileEntry → FileEntry)
    → Option (Filesystem × Bool)
unfolding has_parent find_free_slot
make_at fs norm if_present make = do
  (parent, name) ← split_path norm
  if length name == 0 then some (fs, false) else do
    ok ← has_parent fs parent
    if ok then some (add_entry fs parent name if_present (make parent name)) else some (fs, false)

unfoldable pub mkdir : Filesystem → Option (List ℕ) → Option (Filesystem × Bool)
unfolding make_at
mkdir fs none = some (fs, false)
mkdir fs (some path) = if not (is_absolute path) then some (fs, false) else do
  norm ← normalize_path path
  if fs_strcmp norm root then some (fs, false) else make_at fs norm false new_directory

unfoldable pub touch : Filesystem → Option (List ℕ) → Option (Filesystem × Bool)
unfolding make_at
touch fs none = some (fs, false)
touch fs (some path) =
    if not (is_absolute path)
    then some (fs, false)
    else do norm ← normalize_path path; make_at fs norm true new_file

-- The bytes of `text` that fit with a null byte, over zeroed data.
abbrev pub fill : List ℕ → FileEntry → FileEntry
fill text e =
    let len = (if leb max_file_data (length text) then max_file_data - 1 else length text) in
    record e { content = take len text ++ replicate (max_file_data - len) 0; size = len }

abbrev pub store : Filesystem → Option ℕ → List ℕ → Filesystem × Bool
store fs none text = (fs, false)
store fs (some i) text =
    if is_regular (entry fs i).kind then (update fs i (fill text), true) else (fs, false)

-- `write_file` on what `find_entry` gives.
unfoldable pub write_found :
    Filesystem → List ℕ → List ℕ → List ℕ → List ℕ → Option ℕ → Option (Filesystem × Bool)
unfolding find_entry touch
write_found fs norm parent name text (some i) = some (store fs (some i) text)
write_found fs norm parent name text none = do
  (made, ok) ← touch fs (some norm)
  if ok then some (store made (find_entry made parent name) text) else some (made, false)

unfoldable pub write_file :
    Filesystem → Option (List ℕ) → Option (List ℕ) → Option (Filesystem × Bool)
unfolding write_found
write_file fs none content = some (fs, false)
write_file fs (some path) none = some (fs, false)
write_file fs (some path) (some text) = if not (is_absolute path) then some (fs, false) else do
  norm ← normalize_path path
  (parent, name) ← split_path norm
  write_found fs norm parent name text (find_entry fs parent name)

-- The text put in the output buffer of `buf_size` bytes, a null byte behind it: with `buf_size` 0,
-- `buf_size - 1` wraps around and the copy runs past the end.
abbrev pub copy_out : FileEntry → ℕ → Option (List ℕ)
copy_out e buf_size =
    let copy_len = (if leb buf_size e.size then sub32 buf_size 1 else e.size) in
    if ltb copy_len buf_size then some (take copy_len e.content) else none

-- `read_file` on what `find_entry` gives. The inner `none` is `false`.
abbrev pub read_found : Filesystem → ℕ → Option ℕ → Option (Option (List ℕ))
read_found fs buf_size none = some none
read_found fs buf_size (some i) =
    if is_regular (entry fs i).kind
    then copy_out (entry fs i) buf_size >>= (λ text. some (some text))
    else some none

-- The output buffer is given by its size.
unfoldable pub read_file : Filesystem → Option (List ℕ) → Option ℕ → Option (Option (List ℕ))
unfolding find_entry normalize_path split_path
read_file fs none out = some none
read_file fs (some path) none = some none
read_file fs (some path) (some buf_size) = if not (is_absolute path) then some none else do
  norm ← normalize_path path
  (parent, name) ← split_path norm
  read_found fs buf_size (find_entry fs parent name)

-- `if (pos < buf_size - 1) output_buf[pos++] = c`, and the loop of it over a name.
abbrev pub emit : ℕ → List ℕ → ℕ → List ℕ
emit limit out c = if ltb (length out) limit then out ++ (c ∷ []) else out

unfoldable pub emit_all : ℕ → List ℕ → List ℕ → List ℕ
emit_all limit out [] = out
emit_all limit out (c ∷ cs) = emit_all limit (emit limit out c) cs

abbrev pub indicator : FileType → ℕ
indicator kind = if is_directory kind then b'd' else b'f'

abbrev pub list_entry : ℕ → List ℕ → FileEntry → List ℕ
list_entry limit out e =
    emit limit (emit_all limit (emit limit (emit limit out (indicator e.kind)) b' ') e.name) b'\n'

-- The loop of `ls` over the entries: the number of matches and the output.
unfoldable pub ls_loop : ℕ → List ℕ → ℕ → List ℕ → List FileEntry → ℕ × List ℕ
unfolding emit_all
ls_loop limit norm count out [] = (count, out)
ls_loop limit norm count out (e ∷ es) =
    let listed = not (is_unused e.kind) && fs_strcmp e.parent norm in
    ls_loop limit norm (if listed then count + 1 else count)
      (if listed then list_entry limit out e else out) es

-- The inner `none` is -1. A buffer of no bytes is overrun by the null byte.
unfoldable pub ls : Filesystem → Option (List ℕ) → Option ℕ → Option (Option (ℕ × List ℕ))
unfolding ls_loop normalize_path
ls fs none out = some none
ls fs (some path) none = some none
ls fs (some path) (some buf_size) = do
  norm ← normalize_path path
  if buf_size == 0 then none else some (some (ls_loop (buf_size - 1) norm 0 [] fs.entries))

-- The path of the entry, as `rm` builds it.
abbrev pub full_path : List ℕ → List ℕ → List ℕ
full_path parent name = if fs_strcmp parent root then slash ∷ name else parent ++ (slash ∷ name)

abbrev pub is_child : List ℕ → FileEntry → Bool
is_child path e = not (is_unused e.kind) && fs_strcmp e.parent path

-- `rm` on what `find_entry` gives.
abbrev pub remove_found : Filesystem → List ℕ → List ℕ → Option ℕ → Filesystem × Bool
remove_found fs parent name none = (fs, false)
remove_found fs parent name (some i) =
    if is_directory (entry fs i).kind
      && is_found (find_index (is_child (full_path parent name)) fs.entries)
    then (fs, false)
    else (update fs i (λ _. no_entry), true)

unfoldable pub rm : Filesystem → Option (List ℕ) → Option (Filesystem × Bool)
unfolding find_entry normalize_path split_path
rm fs none = some (fs, false)
rm fs (some path) = if not (is_absolute path) then some (fs, false) else do
  norm ← normalize_path path
  if fs_strcmp norm root then some (fs, false) else do
    (parent, name) ← split_path norm
    some (remove_found fs parent name (find_entry fs parent name))
