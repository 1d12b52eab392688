-- ===== src/Users/Creation.antt =====
-- kernel/users.cpp: `create` and the lookups after it.

use quillos.Prelude.{
  ℕ, ◌≤◌, ◌≡◌, refl, ap, ◌∙◌, inl, inr, true, false, not, Option, none, some, List, [], ◌∷◌, arith,
  length, take, take_all, find_index, find_index-some, find_index-put, find_index-put_miss, str_eq,
  str_eq_refl, str_eq_sound, get_or-modify, length-take, ◌==◌, Bool-cases, Option-cases,
  modify-keeps,
}
use quillos.Users.{
  User, no_user, Users, hash_password, is_named, user, find_named, find, verify, new_user, put,
  create_named, create,
}

verify-some :
    {D : Type 0} (s : Users D) (name : Option (List ℕ)) (attempt : List ℕ) (i : ℕ)
    → find s name ≡ some i
    → verify s name attempt ≡ ((user s i).pass_hash == hash_password attempt)
unfolding verify
verify-some s name attempt i e = rw (verify, e) refl

verify-none :
    {D : Type 0} (s : Users D) (name : Option (List ℕ)) (attempt : List ℕ)
    → find s name ≡ none
    → verify s name attempt ≡ false
unfolding verify
verify-none s name attempt e = rw (verify, e) refl

module _ {D : Type 0} (save : List User → D → D) where
  -- What `create` does when the name is new and a slot is free.
  pub create-put :
      (s : Users D) (name password : List ℕ) (i : ℕ)
      → 1 ≤ length name
      → find s (some name) ≡ none
      → find_index (λ (u : User). not u.active) s.users ≡ some i
      → create save s (some name) (some password)
        ≡ (put save s i (λ _. new_user name password), true)
  unfolding create create_named find
  create-put s [] password i h e free = absurd (omega arith)
  create-put s (c ∷ cs) password i h e free = rw (e, free) refl

  -- A name of 1 to 31 bytes that no user has, with a slot free: `create` succeeds, uses the first
  -- free slot and saves the table; the name is then found there, and a password is accepted for it
  -- exactly if it has the hash of the one given.
  pub create_lem :
      (s : Users D) (name password : List ℕ) (i : ℕ)
      → 1 ≤ length name
      → length name ≤ 31
      → find s (some name) ≡ none
      → find_index (λ (u : User). not u.active) s.users ≡ some i
      → let r = create save s (some name) (some password) in
        (r.1 ≡ true)
        × (r.0.disk ≡ save r.0.users s.disk)
        × (find r.0 (some name) ≡ some i)
        × ((attempt : List ℕ)
            → verify r.0 (some name) attempt ≡ (hash_password password == hash_password attempt))
  unfolding find find_named
  create_lem s name password i h short e free =
      let f : User → User = λ _. new_user name password in
      let inside = (find_index-some (λ (u : User). not u.active) s.users i no_user free).0 in
      let t = put save s i f in
      let go : create save s (some name) (some password) ≡ (t, true) =
        create-put s name password i h e free in
      let same : str_eq (take 31 name) name ≡ true =
        ap (λ n. str_eq n name) (take_all 31 name short) ∙ str_eq_refl name in
      let found : find t (some name) ≡ some i =
        find_index-put (is_named name) s.users i no_user f inside e same in
      let itself : (i == i) ≡ true = ground arith in
      let at : user t i ≡ new_user name password =
        get_or-modify no_user s.users i i f inside ∙ rw itself refl in
      let hash : (user t i).pass_hash ≡ hash_password password =
        ap (λ (u : User). u.pass_hash) at in
      rw go (
        refl,
        refl,
        found,
        λ attempt.
            verify-some t (some name) attempt i found ∙ ap (λ n. n == hash_password attempt) hash,
      )

  -- For a name of more than 31 bytes that no user has, with a slot free, `create` reports success,
  -- yet the name is not found afterwards and no password is accepted for it.
  pub create_long :
      (s : Users D) (name password : List ℕ) (i : ℕ)
      → 32 ≤ length name
      → find s (some name) ≡ none
      → find_index (λ (u : User). not u.active) s.users ≡ some i
      → let r = create save s (some name) (some password) in
        (r.1 ≡ true)
        × (find r.0 (some name) ≡ none)
        × ((attempt : List ℕ) → verify r.0 (some name) attempt ≡ false)
  unfolding find find_named
  create_long s name password i long e free =
      let f : User → User = λ _. new_user name password in
      let inside = (find_index-some (λ (u : User). not u.active) s.users i no_user free).0 in
      let t = put save s i f in
      let go : create save s (some name) (some password) ≡ (t, true) =
        create-put s name password i (omega arith) e free in
      let differ : str_eq (take 31 name) name ≡ false =
        elim (Bool-cases (str_eq (take 31 name) name)) [
          | inl y ↦
              let same = ap length (str_eq_sound (take 31 name) name y) in
              absurd (omega (arith, same, length-take 31 name))
          | inr n ↦ n
        ] in
      let missing : find t (some name) ≡ none =
        find_index-put_miss (is_named name) s.users i no_user f inside e differ in
      rw go (refl, missing, λ attempt. verify-none t (some name) attempt missing)

  -- A successful `create` of a name that fits makes it found.
  pub create-found :
      (s : Users D) (name password : List ℕ)
      → length name ≤ 31
      → (create save s (some name) (some password)).1 ≡ true
      → (i : ℕ) × (find (create save s (some name) (some password)).0 (some name) ≡ some i)
  unfolding create create_named find
  create-found s [] password short ok = cc
  create-found s (c ∷ cs) password short ok = elim (Option-cases (find_named s (c ∷ cs))) [
    | inr (i, e) ↦ let no : false ≡ true = rw e at ok in cc
    | inl e ↦ elim (Option-cases (find_index (λ (u : User). not u.active) s.users)) [
      | inl full ↦ let no : false ≡ true = rw (e, full) at ok in cc
      | inr (i, free) ↦ (i, (create_lem s (c ∷ cs) password i (omega arith) short e free).2)
    ]
  ]

-- What is found is a slot in use.
pub find-active :
    {D : Type 0} (s : Users D) (name : List ℕ) (i : ℕ)
    → find s (some name) ≡ some i
    → (user s i).active ≡ true
unfolding find find_named
find-active s name i e =
    let hit = (find_index-some (is_named name) s.users i no_user e).1 in ground (arith, hit)

-- A slot in use stays in use when its other fields are set.
pub put-active :
    {D : Type 0} (save : List User → D → D) (s : Users D) (i j : ℕ) (f : User → User)
    → ((u : User) → u.active ≡ true → (f u).active ≡ true)
    → (user s j).active ≡ true
    → (user (put save s i f) j).active ≡ true
put-active save s i j f keep h =
    modify-keeps (λ (u : User). u.active ≡ true) no_user s.users i j f keep h
