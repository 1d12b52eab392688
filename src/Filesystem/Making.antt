-- ===== src/Filesystem/Making.antt =====
-- kernel/filesystem.cpp: what making an entry, and filling one, do to the map that the filesystem
-- stands for.

use quillos.Prelude.{
  some_eq, ℕ, ◌-◌, ◌≤◌, ◌<◌, ◌≡◌, ◌⊎◌, refl, ap, sym, ◌∙◌, inl, inr, Bool, true, false, ◌&&◌,
  Option, none, some, List, [], ◌++◌, arith, length, take, replicate, take-append, take_all,
  find_index-some, length-append, length-take, length-replicate, leb, ◌==◌, if◌then◌else◌,
  Bool-cases, Option-cases, >>=-eq-some, str_eq_refl,
}
use quillos.Filesystem.Types.{
  FileType, file_unused, file_regular, file_directory, is_unused, is_regular, max_name_len,
  max_path_len, max_file_data, FileEntry, no_entry, Filesystem,
}
use quillos.Filesystem.Paths.{split_path}
use quillos.Filesystem.{
  entry, update, is_at, is_found, find_entry, find_free_slot, has_parent, place_entry, add_unless,
  add_entry, new_directory, new_file, make_at, fill, store,
}
use quillos.Filesystem.Table.{IsBounded, IsValid, Node, node, view, with_node, found_entry}
use quillos.Filesystem.Changes.{not_found, take_key_lem}
use quillos.Filesystem.Splitting.{split_path-fits}

-- The call succeeded, the table is valid, and the map changed at one key.
abbrev pub Updated : Filesystem → Filesystem × Bool → List ℕ → List ℕ → Option Node → Type 0
Updated fs r p n after =
    (r.1 ≡ true)
    × IsValid r.0
    × ((p' n' : List ℕ) → view r.0 p' n' ≡ with_node (view fs) p n after p' n')

-- What `add_entry` does with a way to make an entry of the given node.
add_entry_lem :
    (fs : Filesystem) (p n : List ℕ) (if_present : Bool) (make : FileEntry → FileEntry) (nd : Node)
    → IsValid fs
    → ((e : FileEntry)
        → IsBounded e
        → IsBounded (make e) × (is_at p n (make e) ≡ true) × (node (make e) ≡ nd))
    → let r = add_entry fs p n if_present make in
      ((r.0 ≡ fs) × (r.1 ≡ (is_found (find_entry fs p n) && if_present)))
      ⊎ ((find_entry fs p n ≡ none) × Updated fs r p n (some nd))
unfolding find_free_slot
add_entry_lem fs p n if_present make nd v made = elim (Option-cases (find_entry fs p n)) [
  | inr (i, e) ↦
      let go : add_entry fs p n if_present make ≡ (fs, if_present) =
        ap (add_unless fs if_present make) e in
      inl (ap (λ r. r.0) go, rw (go, e) refl)
  | inl e ↦ elim (Option-cases (find_free_slot fs)) [
    | inl full ↦
        let go : add_entry fs p n if_present make ≡ (fs, false) =
          ap (add_unless fs if_present make) e ∙ ap (place_entry fs make) full in
        inl (ap (λ r. r.0) go, rw (go, e) refl)
    | inr (i, free) ↦
        let hit =
          find_index-some (λ (e : FileEntry). is_unused e.kind) fs.entries i no_entry free in
        let m = made (entry fs i) (v.bounded i) in
        let alone : (j : ℕ) → is_at p n (entry fs j) ≡ true → i ≡ j =
          λ j h. let miss = not_found fs p n e j in cc in
        let r = take_key_lem fs i make v hit.0 p n (inl hit.1) m.1 alone m.0 in
        let go : add_entry fs p n if_present make ≡ (update fs i make, true) =
          ap (add_unless fs if_present make) e ∙ ap (place_entry fs make) free in
        inr (
          e,
          rw go (
            refl,
            r.0,
            λ p' n'. r.1 p' n' ∙ ap (λ nd. with_node (view fs) p n (some nd) p' n') m.2,
          ),
        )
  ]
]

pub new_directory-made :
    (p n : List ℕ) (e : FileEntry)
    → length p < max_path_len
    → length n < max_name_len
    → IsBounded e
    → IsBounded (new_directory p n e)
      × (is_at p n (new_directory p n e) ≡ true)
      × (node (new_directory p n e) ≡ record { kind = file_directory; bytes = [] })
new_directory-made p n e hp hn b = (
  record {
    name_fits = hn;
    parent_fits = hp;
    size_fits = omega arith;
    content_fits = b.content_fits;
  },
  rw (str_eq_refl p, str_eq_refl n) refl,
  refl,
)

pub new_file-made :
    (p n : List ℕ) (e : FileEntry)
    → length p < max_path_len
    → length n < max_name_len
    → IsBounded e
    → IsBounded (new_file p n e)
      × (is_at p n (new_file p n e) ≡ true)
      × (node (new_file p n e) ≡ record { kind = file_regular; bytes = [] })
new_file-made p n e hp hn b = (
  record {
    name_fits = hn;
    parent_fits = hp;
    size_fits = omega arith;
    content_fits = length-replicate {A = ℕ} max_file_data 0;
  },
  rw (str_eq_refl p, str_eq_refl n) refl,
  refl,
)

both_true : (a b : Bool) → (a && b) ≡ true → (a ≡ true) × (b ≡ true)
both_true a b h = ground arith

-- What `make_at` does, if no buffer overflows.
pub make_at_lem :
    (fs : Filesystem) (norm : List ℕ) (if_present : Bool)
    (make : List ℕ → List ℕ → FileEntry → FileEntry) (nd : Node) (r : Filesystem × Bool)
    → IsValid fs
    → ((p n : List ℕ) (e : FileEntry)
        → length p < max_path_len
        → length n < max_name_len
        → IsBounded e
        → IsBounded (make p n e) × (is_at p n (make p n e) ≡ true) × (node (make p n e) ≡ nd))
    → make_at fs norm if_present make ≡ some r
    → (p : List ℕ) × (n : List ℕ) × (split_path norm ≡ some (p, n))
      × (((r.0 ≡ fs) × (r.1 ≡ true → (is_found (find_entry fs p n) ≡ true) × (if_present ≡ true)))
          ⊎ ((find_entry fs p n ≡ none) × Updated fs r p n (some nd)))
unfolding make_at
make_at_lem fs norm if_present make nd r v made e =
    let cut = >>=-eq-some (split_path norm) _ r e in
    let p = cut.0.0 in
    let n = cut.0.1 in
    let fits = split_path-fits norm p n cut.1 in
    let e' = cut.2 in
    (
      p,
      n,
      cut.1,
      elim (Bool-cases (length n == 0)) [
        | inl empty ↦
            let go : some (fs, false) ≡ some r = rw empty at e' in
            inl (ap (λ r. r.0) (sym (some_eq go)), λ t. let f = ap (λ r. r.1) (some_eq go) in cc)
        | inr named ↦
            let e2 = rw named at e' in
            let has = >>=-eq-some (has_parent fs p) _ r e2 in
            elim (Bool-cases has.0) [
              | inl ok ↦
                  let go : some (add_entry fs p n if_present (make p n)) ≡ some r =
                    rw ok at has.2 in
                  let a =
                    add_entry_lem fs p n if_present (make p n) nd v
                      (λ e. made p n e fits.0 fits.1) in
                  rw (← some_eq go) (elim a [
                    | inl kept ↦ inl (kept.0, λ t. both_true _ _ (sym kept.1 ∙ t))
                    | inr done ↦ inr done
                  ])
              | inr missing ↦
                  let go : some (fs, false) ≡ some r = rw missing at has.2 in
                  inl (
                    ap (λ r. r.0) (sym (some_eq go)),
                    λ t. let f = ap (λ r. r.1) (some_eq go) in cc,
                  )
            ]
      ],
    )

-- The bytes of a text that a file holds.
abbrev pub clipped : List ℕ → List ℕ
clipped text = take (max_file_data - 1) text

pub node_eq :
    (kind : FileType) (a b : List ℕ)
    → is_regular kind ≡ true
    → a ≡ b
    → ◌≡◌ {A = Node} (record { kind = kind; bytes = a }) (record { kind = file_regular; bytes = b })
node_eq file_unused a b h e = cc
node_eq file_regular a b h e = ap (λ bytes. record { kind = file_regular; bytes = bytes }) e
node_eq file_directory a b h e = cc

fill-made :
    (text p n : List ℕ) (e : FileEntry)
    → IsBounded e
    → is_regular e.kind ≡ true
    → IsBounded (fill text e)
      × (node (fill text e) ≡ record { kind = file_regular; bytes = clipped text })
fill-made text p n e b regular =
    let len = (if leb max_file_data (length text) then max_file_data - 1 else length text) in
    let short : len ≤ length text = ground arith in
    let below : len < max_file_data = ground arith in
    let rest = replicate {A = ℕ} (max_file_data - len) 0 in
    let all = length-append (take len text) rest in
    let head = length-take len text in
    let tail = length-replicate {A = ℕ} (max_file_data - len) 0 in
    let same : take len text ≡ clipped text = elim (Bool-cases (leb max_file_data (length text))) [
      | inl long ↦ rw long refl
      | inr fits ↦ rw fits (
          take_all (length text) text (omega arith)
          ∙ sym (take_all (max_file_data - 1) text (ground arith)))
    ] in
    (
      record {
        name_fits = b.name_fits;
        parent_fits = b.parent_fits;
        size_fits = below;
        content_fits = omega (arith, all, head, tail, short, below);
      },
      node_eq e.kind (take len (take len text ++ rest)) (clipped text) regular
          (take-append len text rest short ∙ same),
    )

-- `write_file` on an entry that it found.
pub store_lem :
    (fs : Filesystem) (p n text : List ℕ) (i : ℕ)
    → IsValid fs
    → find_entry fs p n ≡ some i
    → ((store fs (some i) text ≡ (fs, false)) × (is_regular (entry fs i).kind ≡ false))
      ⊎ ((is_regular (entry fs i).kind ≡ true)
          × Updated fs
              (store fs (some i) text)
              p
              n
              (some (record { kind = file_regular; bytes = clipped text })))
store_lem fs p n text i v e = elim (Bool-cases (is_regular (entry fs i).kind)) [
  | inr other ↦ inl (rw other refl, other)
  | inl regular ↦
      let hit = found_entry fs p n i e in
      let m = fill-made text p n (entry fs i) (v.bounded i) regular in
      let alone : (j : ℕ) → is_at p n (entry fs j) ≡ true → i ≡ j =
        λ j h. v.unique i j p n hit.1 h in
      let r = take_key_lem fs i (fill text) v hit.0 p n (inr hit.1) hit.1 alone m.0 in
      let go : store fs (some i) text ≡ (update fs i (fill text), true) = rw regular refl in
      inr (
        regular,
        rw go (
          refl,
          r.0,
          λ p' n'. r.1 p' n' ∙ ap (λ nd. with_node (view fs) p n (some nd) p' n') m.1,
        ),
      )
]
