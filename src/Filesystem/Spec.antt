-- ===== src/Filesystem/Spec.antt =====
-- kernel/filesystem.cpp: what each operation may do to the map that the filesystem stands for, and
-- that `mkdir` and `touch` do so.
use mathlib.Core.Option
use mathlib.Core.Path.{subst}
use quillos.Prelude.{
  some_eq, ℕ, ◌≡◌, ◌⊎◌, ap, sym, ◌∙◌, inl, inr, Bool, true, false, not, Option, none, some, List,
  [], if◌then◌else◌, Bool-cases, ◌>>=◌, >>=-eq-some,
}
use quillos.Filesystem.Types.{file_regular, file_directory, is_directory, Filesystem}
use quillos.Filesystem.Paths.{root, fs_strcmp, normalize_path, split_path}
use quillos.Filesystem.{
  entry, full_path, is_found, is_absolute, find_entry, new_directory, new_file, mkdir, touch,
  write_file, rm,
}
use quillos.Filesystem.Table.{IsValid, Node, node, view}
use quillos.Filesystem.Making.{Updated, new_directory-made, new_file-made, make_at_lem, clipped}

abbrev pub empty_directory : Node
empty_directory = record { kind = file_directory; bytes = [] }

abbrev pub file_of : List ℕ → Node
file_of bytes = record { kind = file_regular; bytes = bytes }

-- The key that a path names.
abbrev pub target : List ℕ → Option (List ℕ × List ℕ)
target path = normalize_path path >>= split_path

-- The four calls that change the filesystem, with their arguments.
pub data Op : Type 0 where
  mkdir_op touch_op rm_op : Option (List ℕ) → Op
  write_op : Option (List ℕ) → Option (List ℕ) → Op

abbrev pub run : Op → Filesystem → Option (Filesystem × Bool)
run (mkdir_op path) fs = mkdir fs path
run (touch_op path) fs = touch fs path
run (rm_op path) fs = rm fs path
run (write_op path content) fs = write_file fs path content

-- What an operation may make of the node at its path. `Childless` says that nothing lies below it.
pub data Allowed (Childless : Type 0) : Op → Option Node → Option Node → Type 0 where
  makes_directory :
      {path : Option (List ℕ)} → Allowed Childless (mkdir_op path) none (some empty_directory)
  makes_file : {path : Option (List ℕ)} → Allowed Childless (touch_op path) none (some (file_of []))
  writes_new :
      {path : Option (List ℕ)} {text : List ℕ}
      → Allowed Childless (write_op path (some text)) none (some (file_of (clipped text)))
  writes_over :
      {path : Option (List ℕ)} {text : List ℕ} (bytes : List ℕ)
      → Allowed Childless
          (write_op path (some text))
          (some (file_of bytes))
          (some (file_of (clipped text)))
  removes :
      {path : Option (List ℕ)} (nd : Node)
      → (is_directory nd.kind ≡ true → Childless)
      → Allowed Childless (rm_op path) (some nd) none

-- Nothing lies below the path that `rm` builds from the key.
abbrev pub IsChildless : Filesystem → List ℕ → List ℕ → Type 0
IsChildless fs p n = (child : List ℕ) → view fs (full_path p n) child ≡ none

abbrev pub path_of : Op → Option (List ℕ)
path_of (mkdir_op path) = path
path_of (touch_op path) = path
path_of (rm_op path) = path
path_of (write_op path content) = path

-- The operation succeeded and changed the map at the key of its path, in a way that is allowed.
abbrev pub Changed : Op → Filesystem → Filesystem × Bool → Type 0
Changed op fs r =
    (p : List ℕ) × (n : List ℕ) × (after : Option Node) × ((path_of op >>= target) ≡ some (p, n))
    × Allowed (IsChildless fs p n) op (view fs p n) after
    × Updated fs r p n after

-- It changed nothing: it failed, or it touched what was there.
abbrev pub Kept : Op → Filesystem → Filesystem × Bool → Type 0
Kept (touch_op path) fs r =
    (r.0 ≡ fs)
    × (r.1 ≡ true
        → (p : List ℕ) × (n : List ℕ) × ((path >>= target) ≡ some (p, n))
          × (is_found (find_entry fs p n) ≡ true))
Kept _ fs r = (r.0 ≡ fs) × (r.1 ≡ false)

pub view-none : (fs : Filesystem) (p n : List ℕ) → find_entry fs p n ≡ none → view fs p n ≡ none
view-none fs p n e = ap (Option.map (λ j. node (entry fs j))) e

pub target_eq :
    (path norm p n : List ℕ)
    → normalize_path path ≡ some norm
    → split_path norm ≡ some (p, n)
    → target path ≡ some (p, n)
target_eq path norm p n e s = ap (λ o. o >>= split_path) e ∙ s

-- The head of each operation: a path that is absolute is normalized.
pub head_cases :
    (fs : Filesystem) (path : List ℕ) (rest : List ℕ → Option (Filesystem × Bool))
    (r : Filesystem × Bool)
    → (if not (is_absolute path) then some (fs, false) else (normalize_path path >>= rest)) ≡ some r
    → (r ≡ (fs, false))
      ⊎ ((norm : List ℕ) × (is_absolute path ≡ true)
          × (normalize_path path ≡ some norm)
          × (rest norm ≡ some r))
head_cases fs path rest r e = elim (Bool-cases (is_absolute path)) [
  | inr rel ↦ let go : some (fs, false) ≡ some r = rw rel at e in inl (sym (some_eq go))
  | inl abs ↦
      let go : (normalize_path path >>= rest) ≡ some r = rw abs at e in
      let cut = >>=-eq-some (normalize_path path) rest r go in inr (cut.0, abs, cut.1, cut.2)
]

pub root_cases :
    (fs : Filesystem) (norm : List ℕ) (rest : Option (Filesystem × Bool)) (r : Filesystem × Bool)
    → (if fs_strcmp norm root then some (fs, false) else rest) ≡ some r
    → (r ≡ (fs, false)) ⊎ (rest ≡ some r)
root_cases fs norm rest r e = elim (Bool-cases (fs_strcmp norm root)) [
  | inl is_root ↦ let go : some (fs, false) ≡ some r = rw is_root at e in inl (sym (some_eq go))
  | inr other ↦ inr (rw other at e)
]

pub mkdir_refines :
    (fs : Filesystem) (path : Option (List ℕ)) (r : Filesystem × Bool)
    → IsValid fs
    → mkdir fs path ≡ some r
    → Kept (mkdir_op path) fs r ⊎ Changed (mkdir_op path) fs r
unfolding mkdir
mkdir_refines fs none r v e =
    let s = some_eq e in inl (ap (λ r. r.0) (sym s), ap (λ r. r.1) (sym s))
mkdir_refines fs (some path) r v e = elim (head_cases fs path _ r e) [
  | inl s ↦ inl (ap (λ r. r.0) s, ap (λ r. r.1) s)
  | inr (norm, abs, en, e') ↦ elim (root_cases fs norm _ r e') [
    | inl s ↦ inl (ap (λ r. r.0) s, ap (λ r. r.1) s)
    | inr e2 ↦
        let m = make_at_lem fs norm false new_directory empty_directory r v new_directory-made e2 in
        elim m.3 [
          | inl (same, only) ↦
              inl (same, elim (Bool-cases r.1) [ inl t ↦ let f = (only t).1 in cc | inr f ↦ f ])
          | inr (absent, u) ↦
              let before : none ≡ view fs m.0 m.1 = sym (view-none fs m.0 m.1 absent) in
              inr (
                m.0,
                m.1,
                some empty_directory,
                target_eq path norm m.0 m.1 en m.2,
                subst
                    (λ o.
                      Allowed (IsChildless fs m.0 m.1) (mkdir_op (some path)) o
                        (some empty_directory))
                    before makes_directory,
                u,
              )
        ]
  ]
]

pub touch_refines :
    (fs : Filesystem) (path : Option (List ℕ)) (r : Filesystem × Bool)
    → IsValid fs
    → touch fs path ≡ some r
    → Kept (touch_op path) fs r ⊎ Changed (touch_op path) fs r
unfolding touch
touch_refines fs none r v e =
    let s = some_eq e in inl (ap (λ r. r.0) (sym s), λ t. let f = ap (λ r. r.1) (sym s) in cc)
touch_refines fs (some path) r v e = elim (head_cases fs path _ r e) [
  | inl s ↦ inl (ap (λ r. r.0) s, λ t. let f = ap (λ r. r.1) s in cc)
  | inr (norm, abs, en, e') ↦
      let m = make_at_lem fs norm true new_file (file_of []) r v new_file-made e' in
      elim m.3 [
        | inl (same, only) ↦
            inl (same, λ t. (m.0, m.1, target_eq path norm m.0 m.1 en m.2, (only t).0))
        | inr (absent, u) ↦
            let before : none ≡ view fs m.0 m.1 = sym (view-none fs m.0 m.1 absent) in
            inr (
              m.0,
              m.1,
              some (file_of []),
              target_eq path norm m.0 m.1 en m.2,
              subst
                  (λ o.
                    Allowed (IsChildless fs m.0 m.1) (touch_op (some path)) o (some (file_of [])))
                  before makes_file,
              u,
            )
      ]
]
