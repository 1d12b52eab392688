-- ===== src/Users/Saving.antt =====
-- kernel/users.cpp: `save_to_disk`, `load_from_disk` and `init`, over the interface of the disk driver.
--
-- A sector is the list of its 512 bytes, and a `User` 48 bytes: the name's 32, the hash's 8, a byte for
-- each other field and 5 of padding, on a little-endian machine. The bytes behind a name's null byte
-- and the padding are those of static storage, zero. A byte on the disk that is no value of its field's
-- type, or a name without a null byte, gives `none`.
use quillos.Prelude.{
  ℕ, zero, suc, ◌+◌, ◌-◌, ◌*◌, ◌/◌, Bool, true, false, not, Option, none, some, List, [], ◌∷◌, ◌++◌,
  map, length, get_or, take, drop, replicate, ltb, ◌==◌, if◌then◌else◌, ◌>>=◌, text_of,
}
use quillos.Network.Wire.{store32, load32}
use quillos.Users.{
  UseCase, usecase_none, usecase_dev, usecase_hosting, usecase_cluster, usecase_daily, User,
  no_user, Users,
}

-- What users.cpp calls of namespace `Disk`: `none` and `false` are failures.
pub record Driver (D : Type 0) : Type 0 where
  pub is_present : D → Bool
  pub read_sector : D → ℕ → Option (List ℕ)
  pub write_sector : D → ℕ → List ℕ → D × Bool

abbrev pub user_magic : ℕ
user_magic = 0x53524551

abbrev pub user_sector : ℕ
user_sector = 100

abbrev pub store64 : ℕ → List ℕ
store64 x = store32 x ++ store32 (x / 4294967296)

abbrev pub load64 : List ℕ → ℕ → ℕ
load64 bytes i = load32 bytes i + 4294967296 * load32 bytes (i + 4)

abbrev pub usecase_byte : UseCase → ℕ
usecase_byte usecase_none = 0
usecase_byte usecase_dev = 1
usecase_byte usecase_hosting = 2
usecase_byte usecase_cluster = 3
usecase_byte usecase_daily = 4

abbrev pub byte_usecase : ℕ → Option UseCase
byte_usecase b =
    if b == 0
    then some usecase_none
    else if b == 1
    then some usecase_dev
    else if b == 2
    then some usecase_hosting
    else if b == 3
    then some usecase_cluster
    else if b == 4
    then some usecase_daily
    else none

abbrev pub bool_byte : Bool → ℕ
bool_byte false = 0
bool_byte true = 1

abbrev pub byte_bool : ℕ → Option Bool
byte_bool b = if b == 0 then some false else if b == 1 then some true else none

-- A name in its 32 bytes.
abbrev pub name_bytes : List ℕ → List ℕ
name_bytes name = name ++ replicate (32 - length name) 0

abbrev pub field_bytes : User → List ℕ
field_bytes u =
    store64 u.pass_hash
    ++ (usecase_byte u.usecase ∷ bool_byte u.onboarded ∷ bool_byte u.active ∷ replicate 5 0)

unfoldable pub user_bytes : User → List ℕ
user_bytes u = name_bytes u.name ++ field_bytes u

unfoldable pub table_bytes : List User → List ℕ
table_bytes [] = []
table_bytes (u ∷ us) = user_bytes u ++ table_bytes us

unfoldable pub load_user : List ℕ → Option User
load_user bytes =
    let name = text_of (take 32 bytes) in
    let rest = drop 32 bytes in
    if not (ltb (length name) 32) then none else do
      usecase ← byte_usecase (get_or rest 8 0)
      onboarded ← byte_bool (get_or rest 9 0)
      active ← byte_bool (get_or rest 10 0)
      some (record {
        name = name;
        pass_hash = load64 rest 0;
        usecase = usecase;
        onboarded = onboarded;
        active = active;
      })

-- The entries in the first `n` times 48 bytes.
unfoldable pub load_table : ℕ → List ℕ → Option (List User)
load_table zero bytes = some []
load_table (suc n) bytes = do u ← load_user bytes; us ← load_table n (drop 48 bytes); some (u ∷ us)

-- What is written to the sector: 8 entries fit in the 504 bytes behind the magic number and the
-- version.
unfoldable pub sector_bytes : List User → List ℕ
sector_bytes us = store32 user_magic ++ (store32 1 ++ (table_bytes us ++ replicate 120 0))

-- The table in a sector. The inner `none` is `false`.
unfoldable pub load_sector : List ℕ → Option (Option (List User))
load_sector sector =
    if not (load32 sector 0 == user_magic)
    then some none
    else if not (load32 sector 4 == 1)
    then some none
    else load_table 8 (drop 8 sector) >>= (λ us. some (some us))

module _ {D : Type 0} (disk : Driver D) where
  unfoldable pub save_to_disk : List User → D → D × Bool
  save_to_disk us d =
      if not (disk.is_present d)
      then (d, false)
      else disk.write_sector d user_sector (sector_bytes us)

  -- What the other operations keep of the save.
  abbrev pub save : List User → D → D
  save us d = (save_to_disk us d).0

  abbrev pub load_read : Option (List ℕ) → Option (Option (List User))
  load_read none = some none
  load_read (some sector) = load_sector sector

  unfoldable pub load_from_disk : D → Option (Option (List User))
  load_from_disk d =
      if not (disk.is_present d) then some none else load_read (disk.read_sector d user_sector)

  abbrev pub loaded_users : List User → Option (List User) → List User
  loaded_users cleared none = cleared
  loaded_users cleared (some us) = us

  -- `init`, without its result, which is always true.
  unfoldable pub init : Users D → Option (Users D)
  init s = do
    loaded ← load_from_disk s.disk
    some (record s {
      users = loaded_users (map (λ (u : User). no_user) s.users) loaded;
      current_user = none;
    })
