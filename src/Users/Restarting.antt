-- ===== src/Users/Restarting.antt =====
-- kernel/users.cpp: what a restart finds of the table that was saved.
use Prim.Native.Nat.{bit_xor}
use mathlib.Core.Path.{subst}
use quillos.Prelude.{
  append_assoc, Every, is_nonzero, text_of, ℕ, zero, suc, ◌-◌, ◌≤◌, ◌<◌, ◌≡◌, refl, sym, ap, ◌∙◌,
  Bool-cases, inl, inr, find_index, mul64, length-set, length-take, Every-take, set, Bool, true,
  false, not, none, some, List, [], ◌∷◌, ◌++◌, arith, length, length-append, length-replicate, take,
  take_length, drop, replicate, ltb, ◌==◌, ◌>>=◌, u64_mod,
}
use quillos.Users.{
  UseCase, usecase_none, usecase_dev, usecase_hosting, usecase_cluster, usecase_daily, User, Users,
  find, verify, create, hash_password, hash_loop, new_user, find_named,
}
use quillos.Users.Creation.{create_lem, create-put}
use quillos.Users.Saving.{
  Driver, user_sector, store64, load64, usecase_byte, byte_usecase, bool_byte, byte_bool,
  name_bytes, field_bytes, user_bytes, table_bytes, load_user, load_table, sector_bytes,
  load_sector, save_to_disk, save, load_from_disk, init,
}

-- An entry whose name fits with a null byte and whose hash is a word.
pub record IsStorable (u : User) : Type 0 where
  pub name_fits : length u.name < 32
  pub name_clean : Every is_nonzero u.name
  pub hash_fits : u.pass_hash < u64_mod

drop_length : (xs ys : List ℕ) → drop (length xs) (xs ++ ys) ≡ ys
drop_length [] ys = refl
drop_length (x ∷ xs) ys = drop_length xs ys

length-name_bytes : (name : List ℕ) → length name < 32 → length (name_bytes name) ≡ 32
length-name_bytes name h =
    let zeros = length-replicate {A = ℕ} (32 - length name) 0 in
    omega (arith, length-append name (replicate (32 - length name) 0), zeros)

take_exact : (n : ℕ) (xs ys : List ℕ) → length xs ≡ n → take n (xs ++ ys) ≡ xs
take_exact n xs ys e = ap (λ k. take k (xs ++ ys)) (sym e) ∙ take_length xs ys

drop_exact : (n : ℕ) (xs ys : List ℕ) → length xs ≡ n → drop n (xs ++ ys) ≡ ys
drop_exact n xs ys e = ap (λ k. drop k (xs ++ ys)) (sym e) ∙ drop_length xs ys

text_of-padded : (name rest : List ℕ) → Every is_nonzero name → text_of (name ++ (0 ∷ rest)) ≡ name
unfolding text_of
text_of-padded [] rest clean = refl
text_of-padded (c ∷ cs) rest clean =
    let e : (c == 0) ≡ false = ground (arith, clean.0) in
    rw (e, text_of-padded cs rest clean.1) refl

padding : (n : ℕ) → n < 32 → replicate {A = ℕ} (32 - n) 0 ≡ 0 ∷ replicate {A = ℕ} (31 - n) 0
padding n h = ap (λ k. replicate {A = ℕ} k 0) (let e : 32 - n ≡ suc (31 - n) = omega arith in e)

text_of-name_bytes :
    (name : List ℕ) → length name < 32 → Every is_nonzero name → text_of (name_bytes name) ≡ name
text_of-name_bytes name h clean =
    ap (λ zs. text_of (name ++ zs)) (padding (length name) h)
    ∙ text_of-padded name (replicate (31 - length name) 0) clean

load64-store64 : (x : ℕ) (rest : List ℕ) → x < u64_mod → load64 (store64 x ++ rest) 0 ≡ x
load64-store64 x rest h = omega arith

byte_usecase_lem : (c : UseCase) → byte_usecase (usecase_byte c) ≡ some c
byte_usecase_lem usecase_none = refl
byte_usecase_lem usecase_dev = refl
byte_usecase_lem usecase_hosting = refl
byte_usecase_lem usecase_cluster = refl
byte_usecase_lem usecase_daily = refl

byte_bool_lem : (b : Bool) → byte_bool (bool_byte b) ≡ some b
byte_bool_lem false = refl
byte_bool_lem true = refl

-- An entry reads back from its bytes.
load_user-user_bytes :
    (u : User) (rest : List ℕ) → IsStorable u → load_user (user_bytes u ++ rest) ≡ some u
unfolding load_user user_bytes
load_user-user_bytes u rest v =
    let name = name_bytes u.name in
    let fields = field_bytes u in
    let whole = append_assoc name fields rest in
    let wide = length-name_bytes u.name v.name_fits in
    let head : take 32 ((name ++ fields) ++ rest) ≡ name =
      ap (take 32) whole ∙ take_exact 32 name (fields ++ rest) wide in
    let tail : drop 32 ((name ++ fields) ++ rest) ≡ fields ++ rest =
      ap (drop 32) whole ∙ drop_exact 32 name (fields ++ rest) wide in
    let text : text_of name ≡ u.name = text_of-name_bytes u.name v.name_fits v.name_clean in
    let short : ltb (length u.name) 32 ≡ true = (let h = v.name_fits in ground arith) in
    let hash =
      load64-store64 u.pass_hash
        (usecase_byte u.usecase
          ∷ bool_byte u.onboarded
          ∷ bool_byte u.active
          ∷ (replicate 5 0 ++ rest))
        v.hash_fits in
    rw
      (
        head,
        tail,
        text,
        short,
        byte_usecase_lem u.usecase,
        byte_bool_lem u.onboarded,
        byte_bool_lem u.active,
        hash,
      )
      refl

length-user_bytes : (u : User) → IsStorable u → length (user_bytes u) ≡ 48
unfolding user_bytes
length-user_bytes u v =
    omega (
      arith,
      length-append (name_bytes u.name) (field_bytes u),
      length-name_bytes u.name v.name_fits,
    )

abbrev pub AllStorable : List User → Type 0
AllStorable [] = Unit {0}
AllStorable (u ∷ us) = IsStorable u × AllStorable us

load_table-table_bytes :
    (us : List User) (rest : List ℕ)
    → AllStorable us
    → load_table (length us) (table_bytes us ++ rest) ≡ some us
unfolding load_table table_bytes
load_table-table_bytes [] rest v = refl
load_table-table_bytes (u ∷ us) rest v =
    let whole = append_assoc (user_bytes u) (table_bytes us) rest in
    let one = ap load_user whole ∙ load_user-user_bytes u (table_bytes us ++ rest) v.0 in
    let more =
      ap (drop 48) whole
      ∙ drop_exact 48 (user_bytes u) (table_bytes us ++ rest) (length-user_bytes u v.0) in
    rw (one, more, load_table-table_bytes us rest v.1) refl

-- A sector reads back as the table of 8 entries that was put into it.
load_sector-sector_bytes :
    (us : List User)
    → length us ≡ 8
    → AllStorable us
    → load_sector (sector_bytes us) ≡ some (some us)
unfolding load_sector sector_bytes
load_sector-sector_bytes us eight v =
    let table =
      ap (λ n. load_table n (table_bytes us ++ replicate 120 0)) (sym eight)
      ∙ load_table-table_bytes us (replicate 120 0) v in
    ap (λ o. o >>= (λ t. some (some t))) table

hash_loop-bound : (hash : ℕ) (cs : List ℕ) → hash < u64_mod → hash_loop hash cs < u64_mod
unfolding hash_loop
hash_loop-bound hash [] h = h
hash_loop-bound hash (c ∷ cs) h =
    hash_loop-bound (mul64 (bit_xor hash c) 0x100000001b3) cs (omega arith)

new_user-IsStorable :
    (name password : List ℕ) → Every is_nonzero name → IsStorable (new_user name password)
unfolding hash_password
new_user-IsStorable name password clean = record {
  name_fits = omega (arith, length-take 31 name);
  name_clean = Every-take is_nonzero 31 name clean;
  hash_fits = hash_loop-bound 0xcbf29ce484222325 password (omega arith);
}

set-AllStorable :
    (us : List User) (i : ℕ) (u : User) → AllStorable us → IsStorable u → AllStorable (set us i u)
set-AllStorable [] i u v h = tt
set-AllStorable (x ∷ us) zero u v h = (h, v.1)
set-AllStorable (x ∷ us) (suc i) u v h = (v.0, set-AllStorable us i u v.1 h)

module _ {D : Type 0} (disk : Driver D) where
  -- The drive's promise: a sector that was written with success is read back, and the drive stays.
  pub record IsDurable : Type 0 where
    pub stays :
        (d : D) (bytes : List ℕ)
        → disk.is_present d ≡ true
        → (disk.write_sector d user_sector bytes).1 ≡ true
        → disk.is_present (disk.write_sector d user_sector bytes).0 ≡ true
    pub keeps :
        (d : D) (bytes : List ℕ)
        → disk.is_present d ≡ true
        → (disk.write_sector d user_sector bytes).1 ≡ true
        → disk.read_sector (disk.write_sector d user_sector bytes).0 user_sector ≡ some bytes

  written :
      (us : List User) (d : D)
      → disk.is_present d ≡ true
      → save_to_disk disk us d ≡ disk.write_sector d user_sector (sector_bytes us)
  unfolding save_to_disk
  written us d here = rw here refl

  read_back :
      (d : D) (sector : List ℕ)
      → disk.is_present d ≡ true
      → disk.read_sector d user_sector ≡ some sector
      → load_from_disk disk d ≡ load_sector sector
  unfolding load_from_disk
  read_back d sector here read = rw (here, read) refl

  present : (us : List User) (d : D) → (save_to_disk disk us d).1 ≡ true → disk.is_present d ≡ true
  unfolding save_to_disk
  present us d ok = elim (Bool-cases (disk.is_present d)) [
    | inl here ↦ here
    | inr absent ↦ let no : false ≡ true = rw absent at ok in cc
  ]

  load-save :
      (us : List User) (d : D)
      → IsDurable
      → length us ≡ 8
      → AllStorable us
      → (save_to_disk disk us d).1 ≡ true
      → load_from_disk disk (save disk us d) ≡ some (some us)
  load-save us d durable eight v ok =
      let here = present us d ok in
      let w = written us d here in
      let ok' : (disk.write_sector d user_sector (sector_bytes us)).1 ≡ true =
        sym (ap (λ r. r.1) w) ∙ ok in
      ap (λ r. load_from_disk disk r.0) w
      ∙ read_back (disk.write_sector d user_sector (sector_bytes us)).0 (sector_bytes us)
          (durable.stays d (sector_bytes us) here ok') (durable.keeps d (sector_bytes us) here ok')
      ∙ load_sector-sector_bytes us eight v

  -- A table of 8 entries whose names fit with a null byte, saved with success on a drive that keeps
  -- what is written, is the table that the next start finds; no user is signed in then.
  pub init-save :
      (s : Users D) (us : List User)
      → IsDurable
      → length us ≡ 8
      → AllStorable us
      → (save_to_disk disk us s.disk).1 ≡ true
      → init disk (record s { disk = save disk us s.disk })
        ≡ some (record { users = us; current_user = none; disk = save disk us s.disk })
  unfolding init
  init-save s us durable eight v ok = rw (load-save us s.disk durable eight v ok) refl

  -- After a successful save of it, a new account is there after a restart: a password is accepted for
  -- it exactly if it has the hash of the one given to `create`.
  pub init-create :
      (s : Users D) (name password : List ℕ) (i : ℕ)
      → IsDurable
      → length s.users ≡ 8
      → AllStorable s.users
      → 1 ≤ length name
      → length name ≤ 31
      → Every is_nonzero name
      → find s (some name) ≡ none
      → find_index (λ (u : User). not u.active) s.users ≡ some i
      → let r = create (save disk) s (some name) (some password) in
        (save_to_disk disk r.0.users s.disk).1 ≡ true
        → (t : Users D) × (init disk (record s { disk = r.0.disk }) ≡ some t)
          × ((attempt : List ℕ)
              → verify t (some name) attempt ≡ (hash_password password == hash_password attempt))
  unfolding verify find find_named
  init-create s name password i durable eight v one short clean e free ok =
      let r = create (save disk) s (some name) (some password) in
      let made =
        ap (λ (q : Users D × Bool). q.0.users)
          (create-put (save disk) s name password i one e free) in
      let u = new_user name password in
      let full : length r.0.users ≡ 8 = ap length made ∙ length-set s.users i u ∙ eight in
      let storable : AllStorable r.0.users =
        subst AllStorable (sym made)
          (set-AllStorable s.users i u v (new_user-IsStorable name password clean)) in
      let facts = create_lem (save disk) s name password i one short e free in
      (
        record r.0 { current_user = none },
        ap (λ d. init disk (record s { disk = d })) facts.1
            ∙ init-save s r.0.users durable full storable ok
            ∙ ap (λ d. some (record { users = r.0.users; current_user = none; disk = d }))
                (sym facts.1),
        facts.3,
      )
