-- ===== src/Filesystem/Writing.antt =====
-- kernel/filesystem.cpp: `write_file` as a change of the map that the filesystem stands for.

use mathlib.Core.Path.{subst}
use quillos.Prelude.{
  some_eq, ℕ, ◌≡◌, ◌⊎◌, refl, ap, sym, ◌∙◌, inl, inr, Bool, true, false, ◌&&◌, Option, none, some,
  List, [], take, Bool-cases, Option-cases, >>=-eq-some, str_eq_refl,
}
use quillos.Filesystem.Types.{is_regular, Filesystem}
use quillos.Filesystem.Paths.{fs_strcmp, normalize_path, split_path}
use quillos.Filesystem.{entry, is_found, find_entry, touch, store, write_found, write_file}
use quillos.Filesystem.Table.{IsValid, Node, node, view, with_node, view-found}
use quillos.Filesystem.Splitting.{normalize_path-IsTrimmed}
use quillos.Filesystem.Making.{Updated, clipped, node_eq, store_lem}
use quillos.Filesystem.Spec.{
  file_of, target, touch_op, write_op, IsChildless, Allowed, makes_file, writes_new, writes_over,
  Changed, Kept, view-none, target_eq, head_cases, touch_refines,
}

-- The node of a file that is found.
view-regular :
    (fs : Filesystem) (p n : List ℕ) (i : ℕ)
    → find_entry fs p n ≡ some i
    → is_regular (entry fs i).kind ≡ true
    → some (file_of (take (entry fs i).size (entry fs i).content)) ≡ view fs p n
view-regular fs p n i e regular =
    ap some (sym (node_eq (entry fs i).kind _ _ regular refl)) ∙ sym (view-found fs p n i e)

-- What has been written over a new file is what stands there.
rewritten :
    (fs : Filesystem) (made : Filesystem) (p n : List ℕ) (a : Option Node) (r : Filesystem × Bool)
    (nd : Node)
    → ((p' n' : List ℕ) → view made p' n' ≡ with_node (view fs) p n a p' n')
    → Updated made r p n (some nd)
    → Updated fs r p n (some nd)
rewritten fs made p n a r nd first u = (
  u.0,
  u.1,
  λ p' n'. u.2 p' n' ∙ elim (Bool-cases (fs_strcmp p p' && fs_strcmp n n')) [
    | inl k ↦ rw k refl
    | inr k ↦ rw k (first p' n' ∙ rw k refl)
  ],
)

-- A node that is in view is found.
pub found_of_view :
    (fs : Filesystem) (p n : List ℕ) (nd : Node)
    → view fs p n ≡ some nd
    → (i : ℕ) × (find_entry fs p n ≡ some i) × (node (entry fs i) ≡ nd)
found_of_view fs p n nd e = elim (Option-cases (find_entry fs p n)) [
  | inl miss ↦ let none_there = view-none fs p n miss in cc
  | inr (i, found) ↦ (i, found, some_eq (sym (view-found fs p n i found) ∙ e))
]

pub key_self : (p n : List ℕ) → (fs_strcmp p p && fs_strcmp n n) ≡ true
key_self p n = rw (str_eq_refl p, str_eq_refl n) refl

touched_file :
    {C : Type 0} {path : Option (List ℕ)} {before after : Option Node}
    → Allowed C (touch_op path) before after
    → after ≡ some (file_of [])
touched_file makes_file = refl

pub some_pair :
    (p n p' n' : List ℕ)
    → ◌≡◌ {A = Option (List ℕ × List ℕ)} (some (p, n)) (some (p', n'))
    → (p ≡ p') × (n ≡ n')
some_pair p n p' n' e = (cc, cc)

-- `write_file` on a path that names nothing: `touch` makes the file, which is then filled.
write_absent :
    (fs : Filesystem) (path norm p n text : List ℕ) (r : Filesystem × Bool)
    → IsValid fs
    → target path ≡ some (p, n)
    → normalize_path norm ≡ some norm
    → split_path norm ≡ some (p, n)
    → find_entry fs p n ≡ none
    → write_found fs norm p n text none ≡ some r
    → Kept (write_op (some path) (some text)) fs r ⊎ Changed (write_op (some path) (some text)) fs r
unfolding write_found
write_absent fs path norm p n text r v key same split absent e =
    let cut = >>=-eq-some (touch fs (some norm)) _ r e in
    let made = cut.0.0 in
    elim (Bool-cases cut.0.1) [
      | inr failed ↦
          let go : some (made, false) ≡ some r = rw failed at cut.2 in
          let s = some_eq go in
          elim (touch_refines fs (some norm) cut.0 v cut.1) [
            | inl (kept, _) ↦ inl (ap (λ r. r.0) (sym s) ∙ kept, ap (λ r. r.1) (sym s))
            | inr (_, _, _, _, _, u) ↦ let t = u.0 in cc
          ]
      | inl ok ↦
          let go : some (store made (find_entry made p n) text) ≡ some r = rw ok at cut.2 in
          let s = some_eq go in
          elim (touch_refines fs (some norm) cut.0 v cut.1) [
            | inl (_, there) ↦
                let q = there ok in
                let k = some_pair p n q.0 q.1 (sym (target_eq norm norm p n same split) ∙ q.2) in
                let found : is_found (find_entry fs p n) ≡ true = rw (k.0, k.1) q.3 in
                let lost : is_found (find_entry fs p n) ≡ false = ap is_found absent in cc
            | inr (p', n', after, at, allowed, u) ↦
                let k = some_pair p n p' n' (sym (target_eq norm norm p n same split) ∙ at) in
                let a = touched_file allowed in
                let seen : view made p n ≡ some (file_of []) =
                  rw (k.0, k.1) (u.2 p' n' ∙ rw (key_self p' n') a) in
                let f = found_of_view made p n (file_of []) seen in
                let regular : is_regular (entry made f.0).kind ≡ true =
                  ap (λ (nd : Node). is_regular nd.kind) f.2 in
                let s' : store made (some f.0) text ≡ r =
                  sym (ap (λ o. store made o text) f.1) ∙ s in
                elim (store_lem made p n text f.0 u.1 f.1) [
                  | inl (_, other) ↦ cc
                  | inr (_, filled) ↦ inr (
                    p,
                    n,
                    some (file_of (clipped text)),
                    key,
                    subst
                        (λ o.
                          Allowed (IsChildless fs p n) (write_op (some path) (some text)) o
                            (some (file_of (clipped text))))
                        (sym (view-none fs p n absent)) writes_new,
                    rewritten fs made p n after r (file_of (clipped text)) (rw (k.0, k.1) u.2)
                        (subst (λ r. Updated made r p n (some (file_of (clipped text)))) s' filled),
                  )
                ]
          ]
    ]

pub write_refines :
    (fs : Filesystem) (path content : Option (List ℕ)) (r : Filesystem × Bool)
    → IsValid fs
    → write_file fs path content ≡ some r
    → Kept (write_op path content) fs r ⊎ Changed (write_op path content) fs r
unfolding write_file write_found
write_refines fs none content r v e =
    let s = some_eq e in inl (ap (λ r. r.0) (sym s), ap (λ r. r.1) (sym s))
write_refines fs (some path) none r v e =
    let s = some_eq e in inl (ap (λ r. r.0) (sym s), ap (λ r. r.1) (sym s))
write_refines fs (some path) (some text) r v e = elim (head_cases fs path _ r e) [
  | inl s ↦ inl (ap (λ r. r.0) s, ap (λ r. r.1) s)
  | inr (norm, abs, en, e') ↦
      let cut = >>=-eq-some (split_path norm) _ r e' in
      let p = cut.0.0 in
      let n = cut.0.1 in
      let key = target_eq path norm p n en cut.1 in
      elim (Option-cases (find_entry fs p n)) [
        | inr (i, found) ↦
            let go : some (store fs (some i) text) ≡ some r =
              sym (ap (write_found fs norm p n text) found) ∙ cut.2 in
            let s = some_eq go in
            elim (store_lem fs p n text i v found) [
              | inl (kept, _) ↦
                  let same = sym s ∙ kept in inl (ap (λ r. r.0) same, ap (λ r. r.1) same)
              | inr (regular, u) ↦ inr (
                p,
                n,
                some (file_of (clipped text)),
                key,
                subst
                    (λ o.
                      Allowed (IsChildless fs p n) (write_op (some path) (some text)) o
                        (some (file_of (clipped text))))
                    (view-regular fs p n i found regular) (writes_over _),
                subst (λ r. Updated fs r p n (some (file_of (clipped text)))) s u,
              )
            ]
        | inl absent ↦
            let go = sym (ap (write_found fs norm p n text) absent) ∙ cut.2 in
            write_absent fs path norm p n text r v key (normalize_path-IsTrimmed path norm en).2
              cut.1 absent go
      ]
]
