-- ===== src/Shell/Keeping.antt =====
-- kernel/shell.cpp and shell_mouse.inc: the commands on files, requests and the clipboard keep the
-- shell valid.

use quillos.Prelude.{
  Every, is_nonzero, Every-take, text_of-Every, ℕ, ◌+◌, ◌%◌, ◌<◌, ◌≡◌, refl, inl, inr, Option, none,
  some, List, arith, length, length-take, ◌==◌, if◌then◌else◌, ◌>>=◌, >>=-eq-some, some_eq,
  Bool-cases, u32_mod, text_of,
}
use quillos.Users.{count}
use quillos.Clipboard.{Clipboard, set_str}
use quillos.Clipboard.Bounds as Clip
use quillos.Filesystem.{ls, read_file}
use quillos.Filesystem.Paths.{root}
use quillos.Filesystem.Spec.{Op, rm_op, write_op, run}
use quillos.Filesystem.Refinement.{starts}
use quillos.Shell.Types.{Shell, Call}
use quillos.Shell.Lines.{build_path, is_empty, run_values}
use quillos.Shell.Names.{color_named}
use quillos.Shell.Commands.{
  shell_init, cd_command, ls_command, change, read_text, cat_command, write_text, write_command,
}
use quillos.Shell.Requests.{
  spawn_command, with_number, rjob_command, run_typed, run_command, color_command, set_color,
  run_call,
}
use quillos.Jobs.Types.{JobType}
use quillos.Shell.Pasting.{
  with_clip, clip_text, copy_command, copy_read, copyf_command, paste_command, pastef_command,
  cut_read, cut_command, pasteh_command,
}
use quillos.Shell.Editor.{loaded}
use quillos.Shell.Safety.{
  IsValid, Sound, some-Sound, if-Sound, >>=-Sound, store-Sound, fs_strcpy-fits,
}

set_str-IsValid :
    (c : Clipboard) (text : List ℕ) → Clip.IsValid c → Clip.IsValid (set_str c (some text))
unfolding set_str
set_str-IsValid c text v = (Clip.set_bytes_lem c text (length text % u32_mod) v (omega arith)).0

pub loaded-fits : (o : Option (List ℕ)) → length (loaded o) < 1024
loaded-fits none = omega arith
loaded-fits (some text) = omega (arith, length-take 1023 text)

text_loaded :
    (content : Option (List ℕ))
    → Every is_nonzero (loaded (content >>= (λ bytes. some (text_of bytes))))
text_loaded none = tt
text_loaded (some bytes) = Every-take is_nonzero 1023 (text_of bytes) (text_of-Every bytes)

module _ {D : Type 0} where
  -- A valid shell in a mode outside the login's, with the variables that no user is needed for.
  pub shell_init-IsValid : (s : Shell D) → IsValid s → IsValid (shell_init s)
  unfolding shell_init
  shell_init-IsValid s v = elim (Bool-cases (count 0 s.users.users == 0)) [
    | inl e ↦ rw e (record {
      line_fits = omega arith;
      cwd_fits = v.cwd_fits;
      filename_fits = v.filename_fits;
      edit_fits = v.edit_fits;
      edit_clean = v.edit_clean;
      username_fits = v.username_fits;
      password_fits = v.password_fits;
      hides = refl;
      has_user = λ inside. cc;
      files = starts;
      clip = v.clip;
    })
    | inr e ↦ rw e (record {
      line_fits = omega arith;
      cwd_fits = v.cwd_fits;
      filename_fits = v.filename_fits;
      edit_fits = v.edit_fits;
      edit_clean = v.edit_clean;
      username_fits = v.username_fits;
      password_fits = v.password_fits;
      hides = refl;
      has_user = λ inside. cc;
      files = starts;
      clip = v.clip;
    })
  ]

  with_cwd :
      (s : Shell D) (path : List ℕ)
      → IsValid s
      → length path < 128
      → IsValid (record s { cwd = path })
  with_cwd s path v fits = record {
    line_fits = v.line_fits;
    cwd_fits = fits;
    filename_fits = v.filename_fits;
    edit_fits = v.edit_fits;
    edit_clean = v.edit_clean;
    username_fits = v.username_fits;
    password_fits = v.password_fits;
    hides = v.hides;
    has_user = v.has_user;
    files = v.files;
    clip = v.clip;
  }

  pub cd_command-Sound : (s : Shell D) (arg : List ℕ) → IsValid s → Sound IsValid (cd_command s arg)
  unfolding cd_command
  cd_command-Sound s arg v = if-Sound _ _ _ (some-Sound (with_cwd s root v (omega arith))) (
      >>=-Sound (build_path s.cwd arg) _ (λ path e.
        >>=-Sound (ls s.fs (some path) (some 16)) _ (λ result e'.
          if-Sound _ _ _ (some-Sound (with_cwd s path v (fs_strcpy-fits 128 _ path e)))
            (some-Sound v))))

  pub ls_command-Sound : (s : Shell D) (arg : List ℕ) → IsValid s → Sound IsValid (ls_command s arg)
  unfolding ls_command
  ls_command-Sound s arg v =
      >>=-Sound (if is_empty arg then some s.cwd else build_path s.cwd arg) _
        (λ path e. >>=-Sound (ls s.fs (some path) (some 1024)) _ (λ result e'. some-Sound v))

  -- An operation given by its name for the refinement.
  pub change-Sound :
      (op : Option (List ℕ) → Op) (s : Shell D) (arg : List ℕ)
      → IsValid s
      → Sound IsValid (change (λ fs path. run (op path) fs) s arg)
  unfolding change
  change-Sound op s arg v =
      if-Sound _ _ _ (some-Sound v)
        (>>=-Sound (build_path s.cwd arg) _ (λ path e. store-Sound s (op (some path)) v))

  pub cat_command-Sound :
      (s : Shell D) (arg : List ℕ) → IsValid s → Sound IsValid (cat_command s arg)
  unfolding cat_command
  cat_command-Sound s arg v = if-Sound _ _ _ (some-Sound v) (
      >>=-Sound (build_path s.cwd arg) _
        (λ path e. >>=-Sound (read_text s path) _ (λ c e'. some-Sound v)))

  write_text-Sound :
      (s : Shell D) (name text : List ℕ) → IsValid s → Sound IsValid (write_text s name text)
  unfolding write_text
  write_text-Sound s name text v =
      >>=-Sound (build_path s.cwd name) _
        (λ path e. store-Sound s (write_op (some path) (some text)) v)

  pub write_command-Sound :
      (s : Shell D) (arg : List ℕ) → IsValid s → Sound IsValid (write_command s arg)
  unfolding write_command
  write_command-Sound s arg v = if-Sound _ _ _ (some-Sound v) (write_text-Sound s _ _ v)

  pub spawn_command-Sound :
      (s : Shell D) (arg : List ℕ) → IsValid s → Sound IsValid (spawn_command s arg)
  unfolding spawn_command
  spawn_command-Sound s arg v = if-Sound _ _ _ (some-Sound v) (some-Sound v)

  pub with_number-Sound :
      (call : ℕ → Call) (s : Shell D) (arg : List ℕ)
      → IsValid s
      → Sound IsValid (with_number call s arg)
  with_number-Sound call s arg v = if-Sound _ _ _ (some-Sound v) (some-Sound v)

  pub rjob_command-Sound :
      (s : Shell D) (arg : List ℕ) → IsValid s → Sound IsValid (rjob_command s arg)
  unfolding rjob_command
  rjob_command-Sound s arg v = if-Sound _ _ _ (some-Sound v) (some-Sound v)

  run_typed-Sound :
      (s : Shell D) (text : List ℕ) (o : Option JobType)
      → IsValid s
      → Sound IsValid (run_typed s text o)
  run_typed-Sound s text none v = some-Sound v
  run_typed-Sound s text (some kind) v =
      >>=-Sound (run_values (length text + 1) 32 text) (λ values. some (s, run_call kind values))
        (λ values e. some-Sound v)

  pub run_command-Sound :
      (s : Shell D) (arg : List ℕ) → IsValid s → Sound IsValid (run_command s arg)
  unfolding run_command
  run_command-Sound s arg v = if-Sound _ _ _ (some-Sound v) (run_typed-Sound s _ _ v)

  set_color-Sound : (s : Shell D) (o : Option ℕ) → IsValid s → Sound IsValid (set_color s o)
  set_color-Sound s none v = some-Sound v
  set_color-Sound s (some c) v = some-Sound v

  pub color_command-Sound :
      (s : Shell D) (arg : List ℕ) → IsValid s → Sound IsValid (color_command s arg)
  unfolding color_command
  color_command-Sound s arg v = set_color-Sound s (color_named arg) v

  pub with_clip-IsValid :
      (s : Shell D) (c : Clipboard) → IsValid s → Clip.IsValid c → IsValid (with_clip s c)
  with_clip-IsValid s c v valid = record {
    line_fits = v.line_fits;
    cwd_fits = v.cwd_fits;
    filename_fits = v.filename_fits;
    edit_fits = v.edit_fits;
    edit_clean = v.edit_clean;
    username_fits = v.username_fits;
    password_fits = v.password_fits;
    hides = v.hides;
    has_user = v.has_user;
    files = v.files;
    clip = valid;
  }

  copied :
      (s : Shell D) (text : List ℕ)
      → IsValid s
      → IsValid (with_clip s (set_str s.clipboard (some text)))
  copied s text v = with_clip-IsValid s _ v (set_str-IsValid s.clipboard text v.clip)

  pub copy_command-Sound :
      (s : Shell D) (arg : List ℕ) → IsValid s → Sound IsValid (copy_command s arg)
  unfolding copy_command
  copy_command-Sound s arg v = if-Sound _ _ _ (some-Sound v) (some-Sound (copied s arg v))

  copy_read-IsValid : (s : Shell D) (o : Option (List ℕ)) → IsValid s → IsValid (copy_read s o)
  copy_read-IsValid s none v = v
  copy_read-IsValid s (some text) v = copied s text v

  pub copyf_command-Sound :
      (s : Shell D) (arg : List ℕ) → IsValid s → Sound IsValid (copyf_command s arg)
  unfolding copyf_command
  copyf_command-Sound s arg v = if-Sound _ _ _ (some-Sound v) (
      >>=-Sound (build_path s.cwd arg) _
        (λ path e. >>=-Sound (read_text s path) _ (λ c e'. some-Sound (copy_read-IsValid s c v))))

  pub paste_command-Sound : (s : Shell D) → IsValid s → Sound IsValid (paste_command s)
  unfolding paste_command
  paste_command-Sound s v = if-Sound _ _ _ (some-Sound v) (some-Sound v)

  pub pastef_command-Sound :
      (s : Shell D) (arg : List ℕ) → IsValid s → Sound IsValid (pastef_command s arg)
  unfolding pastef_command
  pastef_command-Sound s arg v =
      if-Sound _ _ _ (some-Sound v) (write_text-Sound s arg (clip_text s.clipboard) v)

  cut_read-Sound :
      (s : Shell D) (path : List ℕ) (o : Option (List ℕ))
      → IsValid s
      → Sound IsValid (cut_read s path o)
  cut_read-Sound s path none v = some-Sound v
  cut_read-Sound s path (some text) v =
      store-Sound (with_clip s (set_str s.clipboard (some text))) (rm_op (some path))
        (copied s text v)

  pub cut_command-Sound :
      (s : Shell D) (arg : List ℕ) → IsValid s → Sound IsValid (cut_command s arg)
  unfolding cut_command
  cut_command-Sound s arg v = if-Sound _ _ _ (some-Sound v) (
      >>=-Sound (build_path s.cwd arg) _
        (λ path e. >>=-Sound (read_text s path) _ (λ c e'. cut_read-Sound s path c v)))

  pub pasteh_command-Sound :
      (s : Shell D) (received : List ℕ) → IsValid s → Sound IsValid (pasteh_command s received)
  unfolding pasteh_command
  pasteh_command-Sound s received v =
      let stored = Clip.set_bytes_lem s.clipboard received (length received) v.clip (omega arith) in
      if-Sound _ _ _ (some-Sound v) (some-Sound (with_clip-IsValid s _ v stored.0))

  -- A file's text is loaded without a null byte.
  pub loaded-Every :
      (s : Shell D) (path : List ℕ) (o : Option (List ℕ))
      → read_text s path ≡ some o
      → Every is_nonzero (loaded o)
  unfolding read_text
  loaded-Every s path o e =
      let r = >>=-eq-some (read_file s.fs (some path) (some 1024)) _ o e in
      rw (← some_eq r.2) (text_loaded r.0)
