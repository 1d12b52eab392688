-- ===== src/Filesystem/Table.antt =====
-- kernel/filesystem.cpp: the invariant of the entry table, the abstract view of it as a map from a
-- parent and a name to a node, and what the three kinds of change to one entry do to both.
use mathlib.Core.Option
use quillos.Prelude.{
  ℕ, ◌<◌, ◌≡◌, refl, ap, sym, ◌∙◌, inl, inr, Bool, true, false, ◌&&◌, Option, some, List, arith,
  length, take, find_index-some, find_index-same, get_or-modify, ◌==◌, if◌then◌else◌, Bool-cases,
  Option-cases, str_eq_refl, str_eq_sound,
}
use quillos.Filesystem.Types.{
  FileType, is_unused, max_files, max_name_len, max_path_len, max_file_data, FileEntry, no_entry,
  Filesystem,
}
use quillos.Filesystem.Paths.{fs_strcmp}
use quillos.Filesystem.{entry, update, is_at, find_entry}

-- An entry's texts fit their buffers, and its data has its size.
pub record IsBounded (e : FileEntry) : Type 0 where
  pub name_fits : length e.name < max_name_len
  pub parent_fits : length e.parent < max_path_len
  pub size_fits : e.size < max_file_data
  pub content_fits : length e.content ≡ max_file_data

-- The table has its size, its entries are in bounds, and no two entries have the same parent and name.
pub record IsValid (fs : Filesystem) : Type 0 where
  pub sized : length fs.entries ≡ max_files
  pub bounded : (i : ℕ) → IsBounded (entry fs i)
  pub unique :
      (i j : ℕ) (parent name : List ℕ)
      → is_at parent name (entry fs i) ≡ true
      → is_at parent name (entry fs j) ≡ true
      → i ≡ j

-- What a reader of the filesystem can see of an entry: its type and its bytes.
pub record Node : Type 0 where
  pub kind : FileType
  pub bytes : List ℕ

abbrev pub node : FileEntry → Node
node e = record { kind = e.kind; bytes = take e.size e.content }

-- The filesystem as a map.
abbrev pub view : Filesystem → List ℕ → List ℕ → Option Node
view fs parent name = Option.map (λ i. node (entry fs i)) (find_entry fs parent name)

abbrev pub is_key : List ℕ → List ℕ → List ℕ → List ℕ → Bool
is_key p n p' n' = fs_strcmp p p' && fs_strcmp n n'

-- The map with what stands at one key replaced.
abbrev pub with_node :
    (List ℕ → List ℕ → Option Node) → List ℕ → List ℕ → Option Node → List ℕ → List ℕ → Option Node
with_node m p n v p' n' = if is_key p n p' n' then v else m p' n'

pub is_at-key : (p n : List ℕ) (e : FileEntry) → is_at p n e ≡ true → (e.parent ≡ p) × (e.name ≡ n)
is_at-key p n e h = (str_eq_sound e.parent p (ground arith), str_eq_sound e.name n (ground arith))

is_key_self : (p n : List ℕ) → is_key p n p n ≡ true
is_key_self p n = rw (str_eq_refl p, str_eq_refl n) refl

-- An entry at one key is not at another.
pub is_at-other :
    (p n p' n' : List ℕ) (e : FileEntry)
    → is_at p n e ≡ true
    → is_key p n p' n' ≡ false
    → is_at p' n' e ≡ false
is_at-other p n p' n' e h d = elim (Bool-cases (is_at p' n' e)) [
  | inl h' ↦
      let k = is_at-key p n e h in
      let k' = is_at-key p' n' e h' in
      let same : is_key p n p' n' ≡ true = rw (← k.0, ← k.1, k'.0, k'.1) (is_key_self p' n') in cc
  | inr h' ↦ h'
]

pub unused-is_at : (p n : List ℕ) (e : FileEntry) → is_unused e.kind ≡ true → is_at p n e ≡ false
unused-is_at p n e h = ground arith

-- Reading an entry after a write to entry `i`.
pub entry-update :
    (fs : Filesystem) (i j : ℕ) (f : FileEntry → FileEntry)
    → i < length fs.entries
    → entry (update fs i f) j ≡ (if i == j then f (entry fs i) else entry fs j)
entry-update fs i j f h = get_or-modify no_entry fs.entries i j f h

pub entry-update_self :
    (fs : Filesystem) (i : ℕ) (f : FileEntry → FileEntry)
    → i < length fs.entries
    → entry (update fs i f) i ≡ f (entry fs i)
entry-update_self fs i f h =
    let itself : (i == i) ≡ true = ground arith in entry-update fs i i f h ∙ rw itself refl

pub entry-update_other :
    (fs : Filesystem) (i j : ℕ) (f : FileEntry → FileEntry)
    → i < length fs.entries
    → (i == j) ≡ false
    → entry (update fs i f) j ≡ entry fs j
entry-update_other fs i j f h e = entry-update fs i j f h ∙ rw e refl

-- What a search that finds an entry says of it.
pub found_entry :
    (fs : Filesystem) (p n : List ℕ) (i : ℕ)
    → find_entry fs p n ≡ some i
    → (i < length fs.entries) × (is_at p n (entry fs i) ≡ true)
unfolding find_entry
found_entry fs p n i e = find_index-some (is_at p n) fs.entries i no_entry e

-- A change of an entry that is at the key neither before nor after it is not seen there.
pub view-other :
    (fs : Filesystem) (i : ℕ) (f : FileEntry → FileEntry) (p n : List ℕ)
    → i < length fs.entries
    → is_at p n (entry fs i) ≡ false
    → is_at p n (f (entry fs i)) ≡ false
    → view (update fs i f) p n ≡ view fs p n
unfolding find_entry
view-other fs i f p n h before after =
    let same : find_entry (update fs i f) p n ≡ find_entry fs p n =
      find_index-same (is_at p n) fs.entries i (f (entry fs i)) no_entry (before ∙ sym after) in
    elim (Option-cases (find_entry fs p n)) [
      | inl e ↦
          ap (Option.map (λ j. node (entry (update fs i f) j))) (same ∙ e)
          ∙ sym (ap (Option.map (λ j. node (entry fs j))) e)
      | inr (j, e) ↦
          let hit = found_entry fs p n j e in
          let apart : (i == j) ≡ false = elim (Bool-cases (i == j)) [
            | inl z ↦
                let z' : i ≡ j = ground arith in
                let moved = ap (λ k. is_at p n (entry fs k)) z' in cc
            | inr d ↦ d
          ] in
          ap (Option.map (λ j. node (entry (update fs i f) j))) (same ∙ e)
          ∙ ap (λ e. some (node e)) (entry-update_other fs i j f h apart)
          ∙ sym (ap (Option.map (λ j. node (entry fs j))) e)
    ]

pub view-found :
    (fs : Filesystem) (p n : List ℕ) (i : ℕ)
    → find_entry fs p n ≡ some i
    → view fs p n ≡ some (node (entry fs i))
view-found fs p n i e = ap (Option.map (λ j. node (entry fs j))) e
