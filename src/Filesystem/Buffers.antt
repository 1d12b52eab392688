-- ===== src/Filesystem/Buffers.antt =====
-- kernel/filesystem.cpp: which paths stay inside the buffers of the operations.

use quillos.Prelude.{
  ℕ, zero, suc, ◌+◌, ◌≤◌, ◌<◌, ◌≡◌, refl, ap, ◌∙◌, inl, inr, Bool, true, false, Option, none, some,
  List, arith, length, get_or, take, drop, length-take, length-drop, get_or-take, Bool-cases, ltb,
  leb, ◌==◌,
}
use quillos.Filesystem.Types.{max_path_len, max_name_len, FileEntry, Filesystem}
use quillos.Filesystem.Paths.{
  slash, root, fs_strcmp, normalize_path, last_slash, parent_part, name_part, split_path,
}
use quillos.Filesystem.{
  is_absolute, find_entry, directory_at, has_parent, add_entry, new_directory, new_file, make_at,
  mkdir, touch, write_found, write_file, store, read_file, ls, remove_found, rm,
}
use quillos.Filesystem.Splitting.{
  trim-take, normalize_path-long, normalize_path-short, last_slash_lem,
}
use quillos.Filesystem.Spec.{Op, mkdir_op, touch_op, rm_op, write_op, run, path_of}

-- Every call with an absolute path of 128 bytes or more, and any listing of such a path, writes past
-- the end of the buffer for the normalized path.
pub long_path_overflows :
    (fs : Filesystem) (path text : List ℕ) (buf_size : ℕ)
    → is_absolute path ≡ true
    → max_path_len ≤ length path
    → (mkdir fs (some path) ≡ none)
      × (touch fs (some path) ≡ none)
      × (write_file fs (some path) (some text) ≡ none)
      × (read_file fs (some path) (some buf_size) ≡ none)
      × (ls fs (some path) (some buf_size) ≡ none)
      × (rm fs (some path) ≡ none)
unfolding mkdir touch write_file read_file ls rm
long_path_overflows fs path text buf_size abs h =
    let long = normalize_path-long path h in
    (
      rw (abs, long) refl,
      rw (abs, long) refl,
      rw (abs, long) refl,
      rw (abs, long) refl,
      rw long refl,
      rw (abs, long) refl,
    )

-- Among any 32 bytes in a row there is a slash: no part between slashes has 32 bytes.
abbrev pub HasShortNames : List ℕ → Type 0
HasShortNames s =
    (i : ℕ)
    → i + max_name_len ≤ length s
    → (j : ℕ) × (i ≤ j) × (j < i + max_name_len) × (get_or s j 0 ≡ slash)

take-HasShortNames : (m : ℕ) (s : List ℕ) → HasShortNames s → HasShortNames (take m s)
take-HasShortNames m s h i hi =
    let len = length-take m s in
    let r = h i (omega (arith, len)) in
    let at = get_or-take m r.0 s 0 (omega (arith, len, r.2)) in (r.0, r.1, r.2, at ∙ r.3)

parent-HasShortNames :
    (last : Option ℕ) (s : List ℕ) → HasShortNames s → HasShortNames (parent_part last s)
parent-HasShortNames none s h i hi = absurd (omega arith)
parent-HasShortNames (some zero) s h i hi = absurd (omega arith)
parent-HasShortNames (some (suc l)) s h i hi = take-HasShortNames (suc l) s h i hi

parent-short :
    (last : Option ℕ) (s : List ℕ)
    → length s < max_path_len
    → length (parent_part last s) < max_path_len
parent-short none s h = omega arith
parent-short (some zero) s h = omega arith
parent-short (some (suc l)) s h = omega (arith, length-take (suc l) s)

-- What stands behind the last slash is shorter than 32 bytes.
name-short :
    (s : List ℕ) → HasShortNames s → length (name_part (last_slash (length s) s) s) < max_name_len
name-short s h = elim (last_slash_lem (length s) s) [
  | inl (e, no_slash) ↦
      let whole : name_part (last_slash (length s) s) s ≡ s = rw e refl in
      rw whole (elim (Bool-cases (leb max_name_len (length s))) [
        | inl long ↦
            let r = h 0 (ground arith) in
            let miss = no_slash r.0 (ground (arith, r.2)) in absurd (ground (arith, miss, r.3))
        | inr short ↦ ground arith
      ])
  | inr (l, e, inside, hit, no_slash) ↦
      let rest : name_part (last_slash (length s) s) s ≡ drop (l + 1) s = rw e refl in
      let len = length-drop (l + 1) s in
      rw rest (elim (Bool-cases (leb max_name_len (length (drop (l + 1) s)))) [
        | inl long ↦
            let r = h (l + 1) (ground (arith, len)) in
            let miss = no_slash r.0 (omega (arith, r.1)) (ground (arith, len, r.2, long)) in
            absurd (ground (arith, miss, r.3))
        | inr short ↦ ground arith
      ])
]

-- A path below 128 bytes with short names is normalized to such a path.
normalize_path-returns :
    (path : List ℕ)
    → length path < max_path_len
    → HasShortNames path
    → (norm : List ℕ) × (normalize_path path ≡ some norm)
      × (length norm < max_path_len)
      × HasShortNames norm
normalize_path-returns path h names =
    let r = trim-take (length path) path refl in
    let e = normalize_path-short path h in
    (
      take r.0 path,
      e ∙ ap some r.2,
      omega (arith, length-take r.0 path),
      take-HasShortNames r.0 path names,
    )

-- Such a path is split, and its parent is such a path.
split_path-returns :
    (path : List ℕ)
    → length path < max_path_len
    → HasShortNames path
    → (p : List ℕ) × (n : List ℕ) × (split_path path ≡ some (p, n))
      × (length p < max_path_len)
      × HasShortNames p
unfolding split_path
split_path-returns path h names =
    let c = normalize_path-returns path h names in
    let last = last_slash (length c.0) c.0 in
    let short : ltb (length (name_part last c.0)) max_name_len ≡ true =
      ground (arith, name-short c.0 c.3) in
    (
      parent_part last path,
      name_part last c.0,
      rw (c.1, short) refl,
      parent-short last path h,
      parent-HasShortNames last path names,
    )

make_at-returns :
    (fs : Filesystem) (norm : List ℕ) (if_present : Bool)
    (make : List ℕ → List ℕ → FileEntry → FileEntry)
    → length norm < max_path_len
    → HasShortNames norm
    → (r : Filesystem × Bool) × (make_at fs norm if_present make ≡ some r)
unfolding make_at has_parent
make_at-returns fs norm if_present make h names =
    let cut = split_path-returns norm h names in
    let up = split_path-returns cut.0 cut.3 cut.4 in
    elim (Bool-cases (length cut.1 == 0)) [
      | inl empty ↦ ((fs, false), rw (cut.2, empty) refl)
      | inr named ↦ elim (Bool-cases (fs_strcmp cut.0 root)) [
        | inl at_root ↦ (
          add_entry fs cut.0 cut.1 if_present (make cut.0 cut.1),
          rw (cut.2, named, at_root) refl,
        )
        | inr below ↦ elim (Bool-cases (directory_at fs (find_entry fs up.0 up.1))) [
          | inl ok ↦ (
            add_entry fs cut.0 cut.1 if_present (make cut.0 cut.1),
            rw (cut.2, named, below, up.2, ok) refl,
          )
          | inr missing ↦ ((fs, false), rw (cut.2, named, below, up.2, missing) refl)
        ]
      ]
    ]

touch-returns :
    (fs : Filesystem) (path : List ℕ)
    → length path < max_path_len
    → HasShortNames path
    → (r : Filesystem × Bool) × (touch fs (some path) ≡ some r)
unfolding touch
touch-returns fs path h names =
    let c = normalize_path-returns path h names in
    let m = make_at-returns fs c.0 true new_file c.2 c.3 in
    elim (Bool-cases (is_absolute path)) [
      | inl abs ↦ (m.0, rw (abs, c.1) m.1)
      | inr rel ↦ ((fs, false), rw rel refl)
    ]

mkdir-returns :
    (fs : Filesystem) (path : List ℕ)
    → length path < max_path_len
    → HasShortNames path
    → (r : Filesystem × Bool) × (mkdir fs (some path) ≡ some r)
unfolding mkdir
mkdir-returns fs path h names =
    let c = normalize_path-returns path h names in
    let m = make_at-returns fs c.0 false new_directory c.2 c.3 in
    elim (Bool-cases (is_absolute path)) [
      | inl abs ↦ elim (Bool-cases (fs_strcmp c.0 root)) [
        | inl at_root ↦ ((fs, false), rw (abs, c.1, at_root) refl)
        | inr below ↦ (m.0, rw (abs, c.1, below) m.1)
      ]
      | inr rel ↦ ((fs, false), rw rel refl)
    ]

rm-returns :
    (fs : Filesystem) (path : List ℕ)
    → length path < max_path_len
    → HasShortNames path
    → (r : Filesystem × Bool) × (rm fs (some path) ≡ some r)
unfolding rm
rm-returns fs path h names =
    let c = normalize_path-returns path h names in
    let cut = split_path-returns c.0 c.2 c.3 in
    elim (Bool-cases (is_absolute path)) [
      | inl abs ↦ elim (Bool-cases (fs_strcmp c.0 root)) [
        | inl at_root ↦ ((fs, false), rw (abs, c.1, at_root) refl)
        | inr below ↦ (
          remove_found fs cut.0 cut.1 (find_entry fs cut.0 cut.1),
          rw (abs, c.1, below, cut.2) refl,
        )
      ]
      | inr rel ↦ ((fs, false), rw rel refl)
    ]

write_found-returns :
    (fs : Filesystem) (norm p n text : List ℕ) (o : Option ℕ)
    → length norm < max_path_len
    → HasShortNames norm
    → (r : Filesystem × Bool) × (write_found fs norm p n text o ≡ some r)
unfolding write_found
write_found-returns fs norm p n text (some i) h names = (store fs (some i) text, refl)
write_found-returns fs norm p n text none h names =
    let t = touch-returns fs norm h names in
    elim (Bool-cases t.0.1) [
      | inl ok ↦ (store t.0.0 (find_entry t.0.0 p n) text, rw (t.1, ok) refl)
      | inr failed ↦ ((t.0.0, false), rw (t.1, failed) refl)
    ]

write_file-returns :
    (fs : Filesystem) (path : List ℕ) (content : Option (List ℕ))
    → length path < max_path_len
    → HasShortNames path
    → (r : Filesystem × Bool) × (write_file fs (some path) content ≡ some r)
unfolding write_file
write_file-returns fs path none h names = ((fs, false), refl)
write_file-returns fs path (some text) h names =
    let c = normalize_path-returns path h names in
    let cut = split_path-returns c.0 c.2 c.3 in
    let w = write_found-returns fs c.0 cut.0 cut.1 text (find_entry fs cut.0 cut.1) c.2 c.3 in
    elim (Bool-cases (is_absolute path)) [
      | inl abs ↦ (w.0, rw (abs, c.1, cut.2) w.1)
      | inr rel ↦ ((fs, false), rw rel refl)
    ]

-- On a path of less than 128 bytes whose names have less than 32, every operation that changes the
-- filesystem stays inside its buffers and returns.
pub run-returns :
    (op : Op) (fs : Filesystem) (path : List ℕ)
    → path_of op ≡ some path
    → length path < max_path_len
    → HasShortNames path
    → (r : Filesystem × Bool) × (run op fs ≡ some r)
run-returns (mkdir_op p) fs path e h names =
    let r = mkdir-returns fs path h names in (r.0, ap (mkdir fs) e ∙ r.1)
run-returns (touch_op p) fs path e h names =
    let r = touch-returns fs path h names in (r.0, ap (touch fs) e ∙ r.1)
run-returns (rm_op p) fs path e h names =
    let r = rm-returns fs path h names in (r.0, ap (rm fs) e ∙ r.1)
run-returns (write_op p content) fs path e h names =
    let r = write_file-returns fs path content h names in
    (r.0, ap (λ o. write_file fs o content) e ∙ r.1)
