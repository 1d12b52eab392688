-- ===== src/Shell/Commands.antt =====
-- kernel/shell.cpp and shell_mouse.inc: the commands, and what each does on its argument.
--
-- `none` is a write past the end of a buffer, or a loop that does not end. What
-- `Serial::read_line` has received is an argument.
use quillos.Clipboard
use quillos.Users.{Users}
use quillos.Prelude.{
  replicate, ℕ, Bool, true, false, ◌||◌, Option, none, some, List, [], ◌∷◌, take, ◌==◌,
  if◌then◌else◌, ◌>>=◌, str_eq, text_of,
}
use quillos.Users.{count}
use quillos.Filesystem.{init, write_file, read_file, ls}
use quillos.Filesystem.Types.{no_entry, Filesystem, max_file_data}
use quillos.Filesystem.Paths.{root}
use quillos.Shell.Types.{Mode, mode_signup_user, mode_login_user, Shell, Call, call_print}
use quillos.Shell.Lines.{split_word, build_path, is_empty}

-- What a command leaves: the shell and the calls made, unless it faults.
abbrev pub Outcome : Type 0 → Type 0
Outcome D = Option (Shell D × List Call)

abbrev is_some {ℓ} : {A : Type ℓ} → Option A → Bool
is_some none = false
is_some (some a) = true

-- What `ls` prints of a count and a listing; nothing for no entries.
abbrev pub listing : Option (ℕ × List ℕ) → List Call
listing none = []
listing (some (n, out)) = if n == 0 then [] else call_print out ∷ []

abbrev pub shown : Option (List ℕ) → List Call
shown none = []
shown (some text) = if is_empty text then [] else call_print text ∷ []

module _ {D : Type 0} where
  abbrev pub quiet : Shell D → Outcome D
  quiet s = some (s, [])

  abbrev pub with_fs : Shell D → Filesystem → Shell D
  with_fs s fs = record s { fs = fs }

  -- The mode for the next line, with what its prompt does to `password_mode`.
  abbrev pub ask : Shell D → Mode → Bool → Shell D
  ask s mode hidden = record s { mode = mode; password_mode = hidden }

  -- What a call of the filesystem that changes it gives; its result is only printed.
  abbrev pub store_fs : Shell D → Filesystem × Bool → Outcome D
  store_fs s r = quiet (with_fs s r.0)

  -- The variables before the first `shell_init`, as the loader sets them, with the users loaded.
  abbrev pub zeroed : Users D → Shell D
  zeroed users = record {
    mode = mode_signup_user;
    shell_buffer = [];
    cwd = root;
    edit_filename = [];
    edit_buf = [];
    pending_username = [];
    pending_password = [];
    password_mode = false;
    fs = record { entries = replicate 64 no_entry };
    users = users;
    clipboard = Clipboard.init;
  }

  unfoldable pub shell_init : Shell D → Shell D
  shell_init s =
      let fresh = record s { shell_buffer = []; fs = init } in
      ask fresh (if count 0 s.users.users == 0 then mode_signup_user else mode_login_user) false

  -- The directory is looked for by a listing into 16 bytes.
  unfoldable pub cd_command : Shell D → List ℕ → Outcome D
  cd_command s arg = if is_empty arg || str_eq arg root then quiet (record s { cwd = root }) else do
    path ← build_path s.cwd arg
    result ← ls s.fs (some path) (some 16)
    if str_eq path root || is_some result then quiet (record s { cwd = path }) else quiet s

  unfoldable pub ls_command : Shell D → List ℕ → Outcome D
  ls_command s arg = do
    path ← if is_empty arg then some s.cwd else build_path s.cwd arg
    result ← ls s.fs (some path) (some 1024)
    some (s, listing result)

  -- `mkdir`, `touch` and `rm`, which pass the path on to the filesystem.
  unfoldable pub change :
      (Filesystem → Option (List ℕ) → Option (Filesystem × Bool)) → Shell D → List ℕ → Outcome D
  change op s arg =
      if is_empty arg
      then quiet s
      else do path ← build_path s.cwd arg; op s.fs (some path) >>= store_fs s

  -- The C string that a file is read into.
  unfoldable pub read_text : Shell D → List ℕ → Option (Option (List ℕ))
  read_text s path = do
    content ← read_file s.fs (some path) (some max_file_data)
    some (content >>= (λ bytes. some (text_of bytes)))

  unfoldable pub cat_command : Shell D → List ℕ → Outcome D
  cat_command s arg =
      if is_empty arg
      then quiet s
      else do path ← build_path s.cwd arg; content ← read_text s path; some (s, shown content)

  unfoldable pub write_text : Shell D → List ℕ → List ℕ → Outcome D
  write_text s name text = do
    path ← build_path s.cwd name
    write_file s.fs (some path) (some text) >>= store_fs s

  -- The name is at most 63 bytes up to a space, the content at most 127 bytes behind it.
  unfoldable pub write_command : Shell D → List ℕ → Outcome D
  write_command s arg =
      let parts = split_word 63 arg in
      let content = take 127 parts.1 in
      if is_empty arg || is_empty parts.0 || is_empty content
      then quiet s
      else write_text s parts.0 content
