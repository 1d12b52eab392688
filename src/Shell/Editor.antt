-- ===== src/Shell/Editor.antt =====
-- kernel/shell.cpp: `nano` and `edit_update`, the editor.
use quillos.Prelude.{
  ℕ, Bool, ◌&&◌, ◌||◌, Option, none, some, List, [], ◌∷◌, ◌++◌, length, take, ◌-◌, ltb, leb, ◌==◌,
  if◌then◌else◌, ◌>>=◌, text_of,
}
use quillos.Filesystem.{write_file}
use quillos.Filesystem.Paths.{fs_strcpy}
use quillos.Shell.Types.{Shell, mode_edit, mode_shell, edit_size, call_putc, call_backspace, Call}
use quillos.Shell.Lines.{build_path, is_empty}
use quillos.Shell.Commands.{Outcome, quiet, read_text, with_fs}

-- `'\b'`
abbrev pub backspace : ℕ
backspace = 8

abbrev pub loaded : Option (List ℕ) → List ℕ
loaded none = []
loaded (some text) = take (edit_size - 1) text

unfoldable pub putc_all : List ℕ → List Call
putc_all [] = []
putc_all (c ∷ cs) = call_putc c ∷ putc_all cs

-- `c >= 32 && c < 127`
abbrev pub is_printable : ℕ → Bool
is_printable c = leb 32 c && ltb c 127

module _ {D : Type 0} where
  -- `edit_filename` has 64 bytes.
  unfoldable pub nano_command : Shell D → List ℕ → Outcome D
  unfolding putc_all
  nano_command s arg = if is_empty arg then quiet s else do
    path ← build_path s.cwd arg
    filename ← fs_strcpy 64 path
    content ← read_text s path
    some (
      record s { edit_filename = filename; edit_buf = loaded content; mode = mode_edit },
      putc_all (loaded content),
    )

  -- The save of both keys, which leaves the shell in `mode`.
  unfoldable pub save_file : Shell D → (Shell D → Shell D) → Outcome D
  save_file s leave = do
    r ← write_file s.fs (some s.edit_filename) (some (text_of s.edit_buf))
    quiet (leave (with_fs s r.0))

  abbrev pub leave_editor : Shell D → Shell D
  leave_editor s = record s { mode = mode_shell }

  -- The buffer after a key that adds `c` to it.
  abbrev pub insert : Shell D → ℕ → Outcome D
  insert s c =
      if ltb (length s.edit_buf) (edit_size - 1)
      then some (record s { edit_buf = s.edit_buf ++ (c ∷ []) }, call_putc c ∷ [])
      else quiet s

  abbrev pub delete_last : Shell D → Outcome D
  delete_last s =
      if is_empty s.edit_buf
      then quiet s
      else some
          (record s { edit_buf = take (length s.edit_buf - 1) s.edit_buf }, call_backspace ∷ [])

  unfoldable pub edit_update : Shell D → ℕ → Outcome D
  edit_update s c =
      if c == 0x18
      then save_file s leave_editor
      else if c == 0x13
      then save_file s (λ t. t)
      else if c == 0x11 || c == 0x03
      then quiet (leave_editor s)
      else if c == backspace
      then delete_last s
      else if c == b'\n' || is_printable c
      then insert s c
      else quiet s
