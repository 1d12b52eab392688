-- ===== src/Users/Tests.antt =====
-- The theorems about the users at concrete tables, and runs of the operations.
use quillos.Prelude.{
  Bool, ℕ, suc, ◌≡◌, refl, true, none, some, List, [], ◌∷◌, arith, ◌==◌, replicate, str_eq,
}
use quillos.Users.{User, no_user, Users, hash_loop, hash_password, find_named, find, verify, create}
use quillos.Users.Saving.{Driver, save_to_disk, save, init}
use quillos.Users.Restarting.{IsStorable, AllStorable, IsDurable, init-create}

abbrev saved : List User → ℕ → ℕ
saved us n = suc n

-- `b` is a user already.
abbrev one_user : Users ℕ
one_user = record {
  users = record no_user { name = b'b' ∷ []; pass_hash = 5; active = true } ∷ replicate 7 no_user;
  current_user = none;
  disk = 0;
}

hash_run : hash_password (b'a' ∷ []) ≡ 0xaf63dc4c8601ec8c
unfolding hash_password hash_loop
hash_run = refl

new_name : find one_user (some (b'a' ∷ [])) ≡ none
unfolding find find_named str_eq
new_name = refl

abbrev long_name : List ℕ
long_name = replicate 32 b'a'

new_long_name : find one_user (some long_name) ≡ none
unfolding find find_named str_eq
new_long_name = refl

-- A drive whose sector 100 is all that it has.
abbrev one_sector : Driver (List ℕ)
one_sector = record {
  is_present = λ d. true;
  read_sector = λ d lba. some d;
  write_sector = λ d lba bytes. (bytes, true);
}

one_sector-IsDurable : IsDurable one_sector
one_sector-IsDurable = record { stays = λ d bytes h k. refl; keeps = λ d bytes h k. refl }

abbrev nobody : Users (List ℕ)
nobody = record { users = replicate 8 no_user; current_user = none; disk = [] }

no_user-IsStorable : IsStorable no_user
no_user-IsStorable = record { name_fits = omega arith; name_clean = tt; hash_fits = omega arith }

all_free : AllStorable (replicate 8 no_user)
all_free = let u = no_user-IsStorable in (u, (u, (u, (u, (u, (u, (u, (u, tt))))))))

nobody_named : find nobody (some (b'a' ∷ [])) ≡ none
unfolding find find_named str_eq
nobody_named = refl

abbrev created : Users (List ℕ) × Bool
created = create (save one_sector) nobody (some (b'a' ∷ [])) (some (b'x' ∷ []))

saved_ok : (save_to_disk one_sector created.0.users []).1 ≡ true
unfolding save_to_disk
saved_ok = refl

init-create_example :
    (t : Users (List ℕ)) × (init one_sector (record nobody { disk = created.0.disk }) ≡ some t)
    × ((attempt : List ℕ)
        → verify t (some (b'a' ∷ [])) attempt
          ≡ (hash_password (b'x' ∷ []) == hash_password attempt))
init-create_example =
    init-create one_sector nobody (b'a' ∷ []) (b'x' ∷ []) 0 one_sector-IsDurable refl all_free
      (omega arith) (omega arith) (refl, tt) nobody_named refl saved_ok
