-- ===== src/Filesystem/Changes.antt =====
-- kernel/filesystem.cpp: the two ways in which an operation changes the entry table: an entry takes a
-- key, or an entry is cleared.
use mathlib.Core.Option
use quillos.Prelude.{
  ℕ, ◌<◌, ◌≡◌, refl, ap, sym, ◌∙◌, inl, inr, true, false, none, some, List, arith, length,
  find_index-none, length-modify, ◌⊎◌, get_or-out, ltb, ◌==◌, Bool-cases, Option-cases,
  str_eq_sound,
}
use quillos.Filesystem.Types.{is_unused, FileEntry, no_entry, Filesystem}
use quillos.Filesystem.{entry, update, is_at, find_entry}
use quillos.Filesystem.Table.{
  IsBounded, IsValid, node, view, is_key, with_node, is_at-other, unused-is_at, entry-update_self,
  entry-update_other, found_entry, view-other, view-found,
}

-- The only entry at a key is the one that is found.
find-only :
    (fs : Filesystem) (p n : List ℕ) (i : ℕ)
    → i < length fs.entries
    → is_at p n (entry fs i) ≡ true
    → ((j : ℕ) → is_at p n (entry fs j) ≡ true → i ≡ j)
    → find_entry fs p n ≡ some i
unfolding find_entry
find-only fs p n i h hit only = elim (Option-cases (find_entry fs p n)) [
  | inl e ↦ let miss = find_index-none (is_at p n) fs.entries i no_entry e h in cc
  | inr (j, e) ↦ let same = only j (found_entry fs p n j e).1 in e ∙ ap some (sym same)
]

find-nothing :
    (fs : Filesystem) (p n : List ℕ)
    → ((j : ℕ) → is_at p n (entry fs j) ≡ false)
    → find_entry fs p n ≡ none
find-nothing fs p n none_there = elim (Option-cases (find_entry fs p n)) [
  | inl e ↦ e
  | inr (j, e) ↦ let hit = (found_entry fs p n j e).1 in let miss = none_there j in cc
]

-- No entry is at a key that is not found.
pub not_found :
    (fs : Filesystem) (p n : List ℕ)
    → find_entry fs p n ≡ none
    → (j : ℕ) → is_at p n (entry fs j) ≡ false
unfolding find_entry
not_found fs p n e j = elim (Bool-cases (ltb j (length fs.entries))) [
  | inl h ↦ find_index-none (is_at p n) fs.entries j no_entry e (ground arith)
  | inr h ↦
      let blank : entry fs j ≡ no_entry = get_or-out fs.entries j no_entry (ground arith) in
      rw blank refl
]

module _ (fs : Filesystem) (i : ℕ) (f : FileEntry → FileEntry) (v : IsValid fs)
    (h : i < length fs.entries) where
  update-IsBounded : IsBounded (f (entry fs i)) → (j : ℕ) → IsBounded (entry (update fs i f) j)
  update-IsBounded b j = elim (Bool-cases (i == j)) [
    | inl e ↦ let e' : i ≡ j = ground arith in rw (← e', entry-update_self fs i f h) b
    | inr e ↦ rw (entry-update_other fs i j f h e) (v.bounded j)
  ]

  -- An entry that is unused, or at the key already, comes to stand at a key where no other entry is.
  module _ (p n : List ℕ)
      (old : (is_unused (entry fs i).kind ≡ true) ⊎ (is_at p n (entry fs i) ≡ true))
      (new : is_at p n (f (entry fs i)) ≡ true)
      (alone : (j : ℕ) → is_at p n (entry fs j) ≡ true → i ≡ j) where
    only_here : (j : ℕ) → is_at p n (entry (update fs i f) j) ≡ true → i ≡ j
    only_here j hit = elim (Bool-cases (i == j)) [
      | inl e ↦ ground arith
      | inr e ↦ alone j (rw (entry-update_other fs i j f h e) at hit)
    ]

    gone : (p' n' : List ℕ) → is_key p n p' n' ≡ false → is_at p' n' (entry fs i) ≡ false
    gone p' n' d = elim old [
      | inl u ↦ unused-is_at p' n' (entry fs i) u
      | inr o ↦ is_at-other p n p' n' (entry fs i) o d
    ]

    take_key_unique :
        (a b : ℕ) (p' n' : List ℕ)
        → is_at p' n' (entry (update fs i f) a) ≡ true
        → is_at p' n' (entry (update fs i f) b) ≡ true
        → a ≡ b
    take_key_unique a b p' n' ha hb = elim (Bool-cases (is_key p n p' n')) [
      | inl same ↦
          let ep : p ≡ p' = str_eq_sound p p' (ground arith) in
          let en : n ≡ n' = str_eq_sound n n' (ground arith) in
          sym (only_here a (rw (← ep, ← en) at ha)) ∙ only_here b (rw (← ep, ← en) at hb)
      | inr d ↦
          let new' = is_at-other p n p' n' (f (entry fs i)) new d in
          elim (Bool-cases (i == a)) [
            | inl e ↦
                let e' : i ≡ a = ground arith in
                let moved = rw (← e', entry-update_self fs i f h) at ha in cc
            | inr na ↦ elim (Bool-cases (i == b)) [
              | inl e ↦
                  let e' : i ≡ b = ground arith in
                  let moved = rw (← e', entry-update_self fs i f h) at hb in cc
              | inr nb ↦
                  v.unique a b p' n' (rw (entry-update_other fs i a f h na) at ha)
                    (rw (entry-update_other fs i b f h nb) at hb)
            ]
          ]
    ]

    -- The table stays valid, and the map changes at that key only.
    pub take_key_lem :
        IsBounded (f (entry fs i))
        → IsValid (update fs i f)
          × ((p' n' : List ℕ)
              → view (update fs i f) p' n'
                ≡ with_node (view fs) p n (some (node (f (entry fs i)))) p' n')
    take_key_lem b = (
      record {
        sized = length-modify no_entry fs.entries i f ∙ v.sized;
        bounded = update-IsBounded b;
        unique = take_key_unique;
      },
      λ p' n'. elim (Bool-cases (is_key p n p' n')) [
        | inl same ↦
            let ep : p ≡ p' = str_eq_sound p p' (ground arith) in
            let en : n ≡ n' = str_eq_sound n n' (ground arith) in
            let wide : i < length (update fs i f).entries =
              rw (length-modify no_entry fs.entries i f) h in
            let here : is_at p n (entry (update fs i f) i) ≡ true =
              rw (entry-update_self fs i f h) new in
            let found = find-only (update fs i f) p n i wide here only_here in
            let seen =
              view-found (update fs i f) p n i found
              ∙ ap (λ e. some (node e)) (entry-update_self fs i f h) in
            rw same (rw (← ep, ← en) seen)
        | inr d ↦ rw d (
            view-other fs i f p' n' h (gone p' n' d) (is_at-other p n p' n' (f (entry fs i)) new d))
      ],
    )

  -- What is used after an entry is cleared is another entry, as it was.
  still_there :
      (j : ℕ) (p n : List ℕ)
      → is_unused (f (entry fs i)).kind ≡ true
      → is_at p n (entry (update fs i f) j) ≡ true
      → ((i == j) ≡ false) × (is_at p n (entry fs j) ≡ true)
  still_there j p n u hit = elim (Bool-cases (i == j)) [
    | inl e ↦
        let e' : i ≡ j = ground arith in
        let moved = rw (← e', entry-update_self fs i f h) at hit in
        let miss = unused-is_at p n (f (entry fs i)) u in absurd (ground (arith, moved, miss))
    | inr e ↦ (e, rw (entry-update_other fs i j f h e) at hit)
  ]

  -- The entry at a key is cleared.
  pub clear_lem :
      (p n : List ℕ)
      → is_at p n (entry fs i) ≡ true
      → is_unused (f (entry fs i)).kind ≡ true
      → IsBounded (f (entry fs i))
      → IsValid (update fs i f)
        × ((p' n' : List ℕ) → view (update fs i f) p' n' ≡ with_node (view fs) p n none p' n')
  clear_lem p n old u b =
      let still = λ (j : ℕ) (p' n' : List ℕ) (hit : is_at p' n' (entry (update fs i f) j) ≡ true).
        still_there j p' n' u hit in
      (
        record {
          sized = length-modify no_entry fs.entries i f ∙ v.sized;
          bounded = update-IsBounded b;
          unique = λ a b p' n' ha hb. v.unique a b p' n' (still a p' n' ha).1 (still b p' n' hb).1;
        },
        λ p' n'. elim (Bool-cases (is_key p n p' n')) [
          | inl same ↦
              let ep : p ≡ p' = str_eq_sound p p' (ground arith) in
              let en : n ≡ n' = str_eq_sound n n' (ground arith) in
              let nothing : (j : ℕ) → is_at p n (entry (update fs i f) j) ≡ false = λ j.
                elim (Bool-cases (is_at p n (entry (update fs i f) j))) [
                  | inl hit ↦
                      let s = still j p n hit in
                      let z = v.unique i j p n old s.1 in absurd (ground (arith, s.0))
                  | inr miss ↦ miss
                ] in
              let found = find-nothing (update fs i f) p n nothing in
              let seen : view (update fs i f) p n ≡ none =
                ap (Option.map (λ j. node (entry (update fs i f) j))) found in
              rw same (rw (← ep, ← en) seen)
          | inr d ↦ rw d (
              view-other fs i f p' n' h (is_at-other p n p' n' (entry fs i) old d)
                (unused-is_at p' n' (f (entry fs i)) u))
        ],
      )
