-- ===== src/Filesystem/Paths.antt =====
-- kernel/filesystem.cpp: `normalize_path` and `split_path`, with the buffers that they write to.
--
-- A path is the list of its bytes before the null byte. `none` is a write past the end of the
-- caller's buffer: `char[128]` for a path or a parent, `char[32]` for a name.
use quillos.Prelude.{
  ℕ, zero, suc, ◌+◌, Bool, ◌&&◌, Option, none, some, List, [], ◌∷◌, length, get_or, take, drop, ltb,
  ◌==◌, if◌then◌else◌, ◌>>=◌, str_eq,
}
use quillos.Filesystem.Types.{max_path_len, max_name_len}

abbrev pub slash : ℕ
slash = b'/'

-- `"/"`
abbrev pub root : List ℕ
root = slash ∷ []

-- The body of `fs_strcmp` is that of `str_eq`.
abbrev pub fs_strcmp : List ℕ → List ℕ → Bool
fs_strcmp a b = str_eq a b

-- `fs_strcpy` into a buffer of `room` bytes, the null byte included.
abbrev pub fs_strcpy : ℕ → List ℕ → Option (List ℕ)
fs_strcpy room src = if ltb (length src) room then some src else none

-- The loop of `normalize_path` on a text of length `len`.
unfoldable pub trim : ℕ → List ℕ → List ℕ
trim zero output = output
trim (suc n) output =
    if ltb 1 (suc n) && get_or output n 0 == slash then trim n (take n output) else output

unfoldable pub normalize_path : List ℕ → Option (List ℕ)
unfolding trim
normalize_path input = do output ← fs_strcpy max_path_len input; some (trim (length output) output)

-- The last of the first `n` bytes that is a slash; `none` is -1.
unfoldable pub last_slash : ℕ → List ℕ → Option ℕ
last_slash zero clean = none
last_slash (suc i) clean =
    let rest = last_slash i clean in if get_or clean i 0 == slash then some i else rest

-- What stands before the last slash of `path`, and what stands behind it.
abbrev pub parent_part : Option ℕ → List ℕ → List ℕ
parent_part none path = root
parent_part (some zero) path = root
parent_part (some (suc l)) path = take (suc l) path

abbrev pub name_part : Option ℕ → List ℕ → List ℕ
name_part none clean = clean
name_part (some l) clean = drop (l + 1) clean

-- The parent and the name. The parent is shorter than the path, which fits.
unfoldable pub split_path : List ℕ → Option (List ℕ × List ℕ)
unfolding normalize_path last_slash
split_path path = do
  clean ← normalize_path path
  let last = last_slash (length clean) clean
  name ← fs_strcpy max_name_len (name_part last clean)
  some (parent_part last path, name)
