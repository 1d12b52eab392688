-- ===== src/Users.antt =====
-- kernel/users.cpp and users.h: the table of users, their passwords' hashes and the lookups.
--
-- A string is the list of its bytes before the null byte, and a null pointer is `none`. A pointer
-- into `users` is a slot number. What `save_to_disk` makes of the table is the parameter `save`.
pub mod Creation
pub mod Saving
pub mod Restarting
mod Tests
use Prim.Native.Nat.{bit_xor}
use mathlib.Core.Option
use quillos.Prelude.{
  ℕ, zero, suc, ◌+◌, ◌*◌, ◌%◌, ◌^◌, ◌<◌, ◌≡◌, Bool, true, false, not, ◌&&◌, ◌||◌, Option, none,
  some, List, [], ◌∷◌, get_or, take, replicate, find_index, modify, ltb, leb, ◌==◌, str_eq,
  if◌then◌else◌, add32, mul64, u64_mod,
}

pub data UseCase : Type 0 where
  usecase_none usecase_dev usecase_hosting usecase_cluster usecase_daily : UseCase

pub record User : Type 0 where
  pub name : List ℕ
  pub pass_hash : ℕ
  pub usecase : UseCase
  pub onboarded : Bool
  pub active : Bool

abbrev pub max_users : ℕ
max_users = 8

abbrev pub no_user : User
no_user = record {
  name = [];
  pass_hash = 0;
  usecase = usecase_none;
  onboarded = false;
  active = false;
}

-- The variables of namespace `Users`, and the disk that they are saved on.
pub record Users (D : Type 0) : Type 0 where
  pub users : List User
  pub current_user : Option ℕ
  pub disk : D

-- The loop of `hash_password` from the value `hash` on: FNV-1a.
unfoldable pub hash_loop : ℕ → List ℕ → ℕ
hash_loop hash [] = hash
hash_loop hash (c ∷ cs) = hash_loop (mul64 (bit_xor hash c) 0x100000001b3) cs

unfoldable pub hash_password : List ℕ → ℕ
unfolding hash_loop
hash_password password = hash_loop 0xcbf29ce484222325 password

abbrev is_empty : List ℕ → Bool
is_empty [] = true
is_empty (c ∷ cs) = false

abbrev pub is_named : List ℕ → User → Bool
is_named name u = u.active && str_eq u.name name

unfoldable pub count : ℕ → List User → ℕ
count c [] = c
count c (u ∷ us) = count (if u.active then add32 c 1 else c) us

-- The loop of `get_by_index` from slot `i` on, with `c` users passed.
pub get_by_index : ℕ → ℕ → ℕ → List User → Option ℕ
get_by_index idx c i [] = none
get_by_index idx c i (u ∷ us) =
    let next = get_by_index idx (add32 c 1) (suc i) us in
    let same = get_by_index idx c (suc i) us in
    if u.active then if c == idx then some i else next else same

abbrev pub new_user : List ℕ → List ℕ → User
new_user name password = record {
  name = take 31 name;
  pass_hash = hash_password password;
  usecase = usecase_none;
  onboarded = false;
  active = true;
}

module _ {D : Type 0} where
  -- `users[i]`
  abbrev pub user : Users D → ℕ → User
  user s i = get_or s.users i no_user

  -- The search of `find`, for a name that is not null.
  unfoldable pub find_named : Users D → List ℕ → Option ℕ
  find_named s name = find_index (is_named name) s.users

  unfoldable pub find : Users D → Option (List ℕ) → Option ℕ
  unfolding find_named
  find s none = none
  find s (some name) = find_named s name

  unfoldable pub verify : Users D → Option (List ℕ) → List ℕ → Bool
  unfolding find
  verify s name password = elim (find s name) [
    | none ↦ false
    | some i ↦ (user s i).pass_hash == hash_password password
  ]

  module _ (save : List User → D → D) where
    abbrev pub persist : Users D → Users D
    persist s = record s { disk = save s.users s.disk }

    abbrev pub put : Users D → ℕ → (User → User) → Users D
    put s i f = persist (record s { users = modify no_user s.users i f })

    -- `create`, for pointers that are not null.
    unfoldable pub create_named : Users D → List ℕ → List ℕ → Users D × Bool
    unfolding find_named
    create_named s name password = if is_empty name then (s, false) else elim (find_named s name) [
      | some i ↦ (s, false)
      | none ↦ elim (find_index (λ (u : User). not u.active) s.users) [
        | none ↦ (s, false)
        | some i ↦ (put s i (λ _. new_user name password), true)
      ]
    ]

    unfoldable pub create : Users D → Option (List ℕ) → Option (List ℕ) → Users D × Bool
    unfolding create_named
    create s none password = (s, false)
    create s (some name) none = (s, false)
    create s (some name) (some password) = create_named s name password

    unfoldable pub set_usecase : Users D → Option ℕ → UseCase → Users D
    set_usecase s none uc = s
    set_usecase s (some i) uc = put s i (λ u. record u { usecase = uc })

    unfoldable pub complete_onboarding : Users D → Option ℕ → Users D
    complete_onboarding s none = s
    complete_onboarding s (some i) = put s i (λ u. record u { onboarded = true })

  unfoldable pub set_current : Users D → Option ℕ → Users D
  set_current s u = record s { current_user = u }

  unfoldable pub clear_current : Users D → Users D
  clear_current s = record s { current_user = none }
