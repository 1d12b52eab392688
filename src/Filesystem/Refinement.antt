-- ===== src/Filesystem/Refinement.antt =====
-- kernel/filesystem.cpp: every operation, on every path, refines its specification; and what holds of
-- every state that they reach.

use mathlib.Core.Path.{subst}
use quillos.Prelude.{
  some_eq, ℕ, zero, suc, ◌≡◌, ◌⊎◌, refl, ap, sym, ◌∙◌, inl, inr, Bool, true, false, ◌&&◌, Option,
  none, some, List, arith, find_index, find_index-none, length-replicate, get_or-replicate,
  Bool-cases, Option-cases, >>=-eq-some,
}
use quillos.Filesystem.Types.{is_directory, max_file_data, FileEntry, no_entry, Filesystem}
use quillos.Filesystem.Paths.{split_path}
use quillos.Filesystem.{
  init, entry, update, is_at, is_found, find_entry, remove_found, is_child, full_path, rm,
}
use quillos.Filesystem.Table.{IsBounded, IsValid, node, found_entry, view-found}
use quillos.Filesystem.Changes.{clear_lem}
use quillos.Filesystem.Making.{Updated}
use quillos.Filesystem.Spec.{
  Op, mkdir_op, touch_op, rm_op, write_op, run, IsChildless, Allowed, removes, Changed, Kept,
  view-none, target_eq, head_cases, root_cases, mkdir_refines, touch_refines,
}
use quillos.Filesystem.Writing.{write_refines}

no_entry-IsBounded : IsBounded no_entry
no_entry-IsBounded = record {
  name_fits = omega arith;
  parent_fits = omega arith;
  size_fits = omega arith;
  content_fits = length-replicate {A = ℕ} max_file_data 0;
}

-- What `rm` finds out by its search for children.
childless :
    (fs : Filesystem) (p n : List ℕ)
    → is_found (find_index (is_child (full_path p n)) fs.entries) ≡ false
    → IsChildless fs p n
childless fs p n free child =
    let path = full_path p n in
    elim (Option-cases (find_index (is_child path) fs.entries)) [
      | inr (k, found) ↦ let f : true ≡ false = rw found at free in cc
      | inl nothing ↦ elim (Option-cases (find_entry fs path child)) [
        | inl absent ↦ view-none fs path child absent
        | inr (i, found) ↦
            let hit = found_entry fs path child i found in
            let miss = find_index-none (is_child path) fs.entries i no_entry nothing hit.0 in
            absurd (ground (arith, hit.1, miss))
      ]
    ]

remove_lem :
    (fs : Filesystem) (p n : List ℕ) (i : ℕ)
    → IsValid fs
    → find_entry fs p n ≡ some i
    → (remove_found fs p n (some i) ≡ (fs, false))
      ⊎ (Updated fs (remove_found fs p n (some i)) p n none)
        × (is_directory (entry fs i).kind ≡ true → IsChildless fs p n)
remove_lem fs p n i v e =
    let full =
      is_directory (entry fs i).kind
      && is_found (find_index (is_child (full_path p n)) fs.entries) in
    elim (Bool-cases full) [
      | inl holds ↦ inl (rw holds refl)
      | inr free ↦
          let go : remove_found fs p n (some i) ≡ (update fs i (λ _. no_entry), true) =
            rw free refl in
          let hit = found_entry fs p n i e in
          let r = clear_lem fs i (λ _. no_entry) v hit.0 p n hit.1 refl no_entry-IsBounded in
          inr (rw go (refl, r.0, r.1), λ d. childless fs p n (rw d at free))
    ]

rm_refines :
    (fs : Filesystem) (path : Option (List ℕ)) (r : Filesystem × Bool)
    → IsValid fs
    → rm fs path ≡ some r
    → Kept (rm_op path) fs r ⊎ Changed (rm_op path) fs r
unfolding rm
rm_refines fs none r v e = let s = some_eq e in inl (ap (λ r. r.0) (sym s), ap (λ r. r.1) (sym s))
rm_refines fs (some path) r v e = elim (head_cases fs path _ r e) [
  | inl s ↦ inl (ap (λ r. r.0) s, ap (λ r. r.1) s)
  | inr (norm, abs, en, e') ↦ elim (root_cases fs norm _ r e') [
    | inl s ↦ inl (ap (λ r. r.0) s, ap (λ r. r.1) s)
    | inr e2 ↦
        let cut = >>=-eq-some (split_path norm) _ r e2 in
        let p = cut.0.0 in
        let n = cut.0.1 in
        let s = some_eq cut.2 in
        elim (Option-cases (find_entry fs p n)) [
          | inl absent ↦
              let same : r ≡ (fs, false) = sym s ∙ ap (remove_found fs p n) absent in
              inl (ap (λ r. r.0) same, ap (λ r. r.1) same)
          | inr (i, found) ↦
              let s' : remove_found fs p n (some i) ≡ r =
                sym (ap (remove_found fs p n) found) ∙ s in
              elim (remove_lem fs p n i v found) [
                | inl kept ↦
                    let same : r ≡ (fs, false) = sym s' ∙ kept in
                    inl (ap (λ r. r.0) same, ap (λ r. r.1) same)
                | inr (u, below) ↦ inr (
                  p,
                  n,
                  none,
                  target_eq path norm p n en cut.1,
                  subst (λ o. Allowed (IsChildless fs p n) (rm_op (some path)) o none)
                      (sym (view-found fs p n i found)) (removes (node (entry fs i)) below),
                  subst (λ r. Updated fs r p n none) s' u,
                )
              ]
        ]
  ]
]

-- On a valid table, an operation that stays inside its buffers either keeps the filesystem and fails
-- (or touches what is there), or succeeds and changes exactly the node that its path names, in the
-- way of that operation, and the table stays valid. `rm` takes a directory only if nothing lies
-- below the path that it builds for it.
pub run_refines :
    (op : Op) (fs : Filesystem) (r : Filesystem × Bool)
    → IsValid fs
    → run op fs ≡ some r
    → Kept op fs r ⊎ Changed op fs r
run_refines (mkdir_op path) fs r v e = mkdir_refines fs path r v e
run_refines (touch_op path) fs r v e = touch_refines fs path r v e
run_refines (rm_op path) fs r v e = rm_refines fs path r v e
run_refines (write_op path content) fs r v e = write_refines fs path content r v e

Kept-same : (op : Op) (fs : Filesystem) (r : Filesystem × Bool) → Kept op fs r → r.0 ≡ fs
Kept-same (mkdir_op path) fs r k = k.0
Kept-same (touch_op path) fs r k = k.0
Kept-same (rm_op path) fs r k = k.0
Kept-same (write_op path content) fs r k = k.0

-- The filesystems that the operations reach from `init`, over calls that write past no buffer.
pub data Reached : Filesystem → Type 0 where
  starts : Reached init
  does :
      {fs : Filesystem} (op : Op) (r : Filesystem × Bool)
      → Reached fs
      → run op fs ≡ some r
      → Reached r.0

init-IsBounded : (i : ℕ) → IsBounded (entry init i)
unfolding init
init-IsBounded zero = record {
  name_fits = omega arith;
  parent_fits = omega arith;
  size_fits = omega arith;
  content_fits = length-replicate {A = ℕ} max_file_data 0;
}
init-IsBounded (suc i) = rw (get_or-replicate {A = FileEntry} 63 i no_entry) no_entry-IsBounded

-- Only the root's entry is in use at first.
init_first : (i : ℕ) (p n : List ℕ) → is_at p n (entry init i) ≡ true → i ≡ 0
unfolding init
init_first zero p n h = refl
init_first (suc i) p n h =
    let blank = get_or-replicate {A = FileEntry} 63 i no_entry in
    let miss = ap (is_at p n) blank in cc

init-IsValid : IsValid init
unfolding init
init-IsValid = record {
  sized = ap suc (length-replicate {A = FileEntry} 63 no_entry);
  bounded = init-IsBounded;
  unique = λ i j p n hi hj. init_first i p n hi ∙ sym (init_first j p n hj);
}

-- They are valid.
pub Reached-IsValid : {fs : Filesystem} → Reached fs → IsValid fs
Reached-IsValid starts = init-IsValid
Reached-IsValid (does {fs = fs} op r h e) =
    let v = Reached-IsValid h in
    elim (run_refines op fs r v e) [
      | inl kept ↦ subst IsValid (sym (Kept-same op fs r kept)) v
      | inr (_, _, _, _, _, u) ↦ u.1
    ]
