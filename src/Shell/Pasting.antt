-- ===== src/Shell/Pasting.antt =====
-- kernel/shell_mouse.inc: the commands on the clipboard.
use quillos.Prelude.{
  ℕ, ◌||◌, Option, none, some, List, [], ◌∷◌, length, if◌then◌else◌, ◌>>=◌, text_of,
}
use quillos.Clipboard.{Clipboard, set_bytes, set_str, empty}
use quillos.Filesystem.{rm}
use quillos.Shell.Types.{Shell, call_print}
use quillos.Shell.Lines.{build_path, is_empty}
use quillos.Shell.Commands.{Outcome, quiet, read_text, write_text, store_fs}

-- `Clipboard::get()`
abbrev pub clip_text : Clipboard → List ℕ
clip_text c = text_of c.buffer

module _ {D : Type 0} where
  abbrev pub with_clip : Shell D → Clipboard → Shell D
  with_clip s c = record s { clipboard = c }

  unfoldable pub copy_command : Shell D → List ℕ → Outcome D
  copy_command s arg =
      if is_empty arg then quiet s else quiet (with_clip s (set_str s.clipboard (some arg)))

  -- What `copyf` does with what it has read.
  abbrev pub copy_read : Shell D → Option (List ℕ) → Shell D
  copy_read s none = s
  copy_read s (some text) = with_clip s (set_str s.clipboard (some text))

  unfoldable pub copyf_command : Shell D → List ℕ → Outcome D
  copyf_command s arg =
      if is_empty arg
      then quiet s
      else do path ← build_path s.cwd arg; content ← read_text s path; quiet (copy_read s content)

  unfoldable pub paste_command : Shell D → Outcome D
  paste_command s =
      if empty s.clipboard then quiet s else some (s, call_print (clip_text s.clipboard) ∷ [])

  unfoldable pub pastef_command : Shell D → List ℕ → Outcome D
  pastef_command s arg =
      if is_empty arg || empty s.clipboard
      then quiet s
      else write_text s arg (clip_text s.clipboard)

  abbrev pub cut_read : Shell D → List ℕ → Option (List ℕ) → Outcome D
  cut_read s path none = quiet s
  cut_read s path (some text) =
      rm s.fs (some path) >>= store_fs (with_clip s (set_str s.clipboard (some text)))

  unfoldable pub cut_command : Shell D → List ℕ → Outcome D
  cut_command s arg =
      if is_empty arg
      then quiet s
      else do path ← build_path s.cwd arg; content ← read_text s path; cut_read s path content

  -- On the bytes that `Serial::read_line` has put into its buffer.
  unfoldable pub pasteh_command : Shell D → List ℕ → Outcome D
  pasteh_command s received =
      if is_empty received
      then quiet s
      else some (
        with_clip s (set_bytes s.clipboard (some received) (length received)),
        call_print (text_of received) ∷ [],
      )
