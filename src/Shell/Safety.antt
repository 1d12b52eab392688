-- ===== src/Shell/Safety.antt =====
-- kernel/shell.cpp: what holds of the shell's variables in every state, and that the commands keep it.
use quillos.Prelude.{
  Every, is_nonzero, ℕ, ◌<◌, ◌≡◌, refl, inl, inr, Bool, true, false, Option, none, some, List,
  arith, length, ltb, if◌then◌else◌, ◌>>=◌, some_eq, Bool-cases,
}
use quillos.Users.{Users, user}
use quillos.Filesystem.Types.{Filesystem}
use quillos.Filesystem.Paths.{fs_strcpy}
use quillos.Filesystem.Spec.{Op, run}
use quillos.Filesystem.Refinement.{Reached, does}
use quillos.Clipboard.Bounds as Clip
use quillos.Shell.Types.{
  Mode, mode_signup_pass, mode_signup_confirm, mode_onboard_usecase, mode_onboard_packages,
  mode_login_pass, mode_edit, mode_shell, Shell, Call,
}
use quillos.Shell.Commands.{Outcome, with_fs, store_fs}

-- The modes whose lines are passwords, and those that a user must have signed in for.
abbrev pub asks_password : Mode → Bool
asks_password mode_signup_pass = true
asks_password mode_signup_confirm = true
asks_password mode_login_pass = true
asks_password _ = false

abbrev pub is_inside : Mode → Bool
is_inside mode_onboard_usecase = true
is_inside mode_onboard_packages = true
is_inside mode_edit = true
is_inside mode_shell = true
is_inside _ = false

module _ {D : Type 0} where
  -- The current user is a slot of the table in use.
  abbrev pub HasUser : Users D → Type 0
  HasUser u = (i : ℕ) × (u.current_user ≡ some i) × ((user u i).active ≡ true)

  -- Each text fits its buffer with a null byte, and the edited one has none; `password_mode` is on exactly where a password is
  -- asked for; behind the login, a user has signed in.
  pub record IsValid (s : Shell D) : Type 0 where
    pub line_fits : length s.shell_buffer < 256
    pub cwd_fits : length s.cwd < 128
    pub filename_fits : length s.edit_filename < 64
    pub edit_fits : length s.edit_buf < 1024
    pub edit_clean : Every is_nonzero s.edit_buf
    pub username_fits : length s.pending_username < 32
    pub password_fits : length s.pending_password < 64
    pub hides : s.password_mode ≡ asks_password s.mode
    pub has_user : is_inside s.mode ≡ true → HasUser s.users
    pub files : Reached s.fs
    pub clip : Clip.IsValid s.clipboard

  -- An outcome that, unless it is a fault, leaves a shell with the property.
  pub record Sound (P : Shell D → Type 0) (o : Outcome D) : Type 0 where
    pub leaves : (r : Shell D × List Call) → o ≡ some r → P r.0

  module _ {P : Shell D → Type 0} where
    pub none-Sound : Sound P none
    none-Sound = record { leaves = λ r e. cc }

    pub some-Sound : {s : Shell D} {calls : List Call} → P s → Sound P (some (s, calls))
    some-Sound {s = s} {calls = calls} h = record {
      leaves = λ r e. let same : (s, calls) ≡ r = some_eq e in rw (← same) h;
    }

    pub if-Sound :
        (c : Bool) (x y : Outcome D) → Sound P x → Sound P y → Sound P (if c then x else y)
    if-Sound true x y h k = h
    if-Sound false x y h k = k

    -- The test's outcome is at hand for the first branch.
    pub test-Sound :
        (c : Bool) (x y : Outcome D)
        → (c ≡ true → Sound P x)
        → Sound P y
        → Sound P (if c then x else y)
    test-Sound true x y h k = h refl
    test-Sound false x y h k = k

    pub >>=-Sound :
        {A : Type 0} (m : Option A) (f : A → Outcome D)
        → ((a : A) → m ≡ some a → Sound P (f a))
        → Sound P (m >>= f)
    >>=-Sound none f h = none-Sound
    >>=-Sound (some a) f h = h a refl

  -- A change of the filesystem by one of its operations.
  pub with_fs-IsValid :
      (s : Shell D) (op : Op) (r : Filesystem × Bool)
      → IsValid s
      → run op s.fs ≡ some r
      → IsValid (with_fs s r.0)
  with_fs-IsValid s op r v e = record {
    line_fits = v.line_fits;
    cwd_fits = v.cwd_fits;
    filename_fits = v.filename_fits;
    edit_fits = v.edit_fits;
    edit_clean = v.edit_clean;
    username_fits = v.username_fits;
    password_fits = v.password_fits;
    hides = v.hides;
    has_user = v.has_user;
    files = does op r v.files e;
    clip = v.clip;
  }

  pub store-Sound : (s : Shell D) (op : Op) → IsValid s → Sound IsValid (run op s.fs >>= store_fs s)
  store-Sound s op v =
      >>=-Sound (run op s.fs) (store_fs s) (λ r e. some-Sound (with_fs-IsValid s op r v e))

pub fs_strcpy-fits :
    (room : ℕ) (src out : List ℕ) → fs_strcpy room src ≡ some out → length out < room
fs_strcpy-fits room src out e = elim (Bool-cases (ltb (length src) room)) [
  | inl fits ↦
      let same : src ≡ out = (let e' : some src ≡ some out = rw fits at e in some_eq e') in
      let short : length src < room = ground (arith, fits) in rw (← same) short
  | inr over ↦ let bad : none ≡ some out = rw over at e in cc
]
