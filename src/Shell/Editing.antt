-- ===== src/Shell/Editing.antt =====
-- kernel/shell.cpp: a session of the editor, and what is in the file after it.
use quillos.Prelude.{
  append_assoc, append_nil, Every, is_nonzero, Every-append, text_of_nonzero, take_all, text_of, ℕ,
  ◌+◌, ◌<◌, ◌≡◌, refl, sym, ap, ◌∙◌, Bool, true, false, ◌||◌, some, List, [], ◌∷◌, ◌++◌, map, arith,
  length, length-append, ltb, ◌==◌,
}
use quillos.Users.{User}
use quillos.Filesystem.{write_file, read_file}
use quillos.Filesystem.Types.{Filesystem}
use quillos.Filesystem.Refinement.{Reached-IsValid}
use quillos.Filesystem.Contents.{read_file-write_file}
use quillos.Shell.Types.{mode_edit, mode_shell, Shell, call_putc}
use quillos.Shell.Editor.{backspace, is_printable, edit_update, save_file}
use quillos.Shell.{is_editing, shell_update}
use quillos.Shell.Keys.{Keyed, Keyed-IsValid}
use quillos.Shell.Typing.{press_keys}

-- A key that the editor puts into the text.
abbrev pub is_text : ℕ → Bool
is_text c = c == b'\n' || is_printable c

text_nonzero : (keys : List ℕ) → Every is_text keys → Every is_nonzero keys
text_nonzero [] p = tt
text_nonzero (c ∷ cs) p = (ground (arith, p.0), text_nonzero cs p.1)

module _ {D : Type 0} (save : List User → D → D) (received : List ℕ) where
  abbrev with_text : Shell D → List ℕ → Shell D
  with_text s text = record s { edit_buf = text }

  edit_key :
      (s : Shell D) (c : ℕ)
      → s.mode ≡ mode_edit
      → is_text c ≡ true
      → length s.edit_buf < 1023
      → shell_update save received s c
        ≡ some (with_text s (s.edit_buf ++ (c ∷ [])), call_putc c ∷ [])
  unfolding shell_update edit_update
  edit_key s c e p room =
      let save_exit : (c == 0x18) ≡ false = ground (arith, p) in
      let save_stay : (c == 0x13) ≡ false = ground (arith, p) in
      let quit : (c == 0x11) ≡ false = ground (arith, p) in
      let cancel : (c == 0x03) ≡ false = ground (arith, p) in
      let back : (c == backspace) ≡ false = ground (arith, p) in
      let fits : ltb (length s.edit_buf) 1023 ≡ true = ground (arith, room) in
      rw (ap is_editing e, save_exit, save_stay, quit, cancel, back, p, fits) refl

  -- Ctrl+X saves and leaves.
  edit_exit :
      (s : Shell D) (r : Filesystem × Bool)
      → s.mode ≡ mode_edit
      → write_file s.fs (some s.edit_filename) (some (text_of s.edit_buf)) ≡ some r
      → shell_update save received s 0x18 ≡ some (record s { mode = mode_shell; fs = r.0 }, [])
  unfolding shell_update edit_update save_file
  edit_exit s r e w = rw (ap is_editing e, w) refl

  edit_keys :
      (s : Shell D) (b keys : List ℕ) (r : Filesystem × Bool)
      → s.mode ≡ mode_edit
      → Every is_text keys
      → length b + length keys < 1024
      → write_file s.fs (some s.edit_filename) (some (text_of (b ++ keys))) ≡ some r
      → press_keys save received (with_text s b) (keys ++ (0x18 ∷ []))
        ≡ some (record s { edit_buf = b ++ keys; mode = mode_shell; fs = r.0 }, map call_putc keys)
  unfolding press_keys
  edit_keys s b [] r e p room w =
      rw
        (
          edit_exit (with_text s b) r e (
              ap (λ l. write_file s.fs (some s.edit_filename) (some (text_of l)))
                (sym (append_nil b))
              ∙ w),
          append_nil b,
        )
        refl
  edit_keys s b (c ∷ cs) r e p room w =
      let one = edit_key (with_text s b) c e p.0 (omega arith) in
      let long = length-append b (c ∷ []) in
      let rest =
        edit_keys s (b ++ (c ∷ [])) cs r e p.1 (omega (arith, long))
          (rw (append_assoc b (c ∷ []) cs) w) in
      rw (one, rest, append_assoc b (c ∷ []) cs) refl

  -- In every state of the editor that keys lead to: when text is typed that fits the buffer behind
  -- what is in it, and Ctrl+X is pressed while the filesystem takes a write of the whole, the keys
  -- are echoed, the shell takes commands again, and the file reads back as what was in the buffer
  -- and the text behind it.
  pub edited_file :
      (s : Shell D) (keys : List ℕ) (fs : Filesystem)
      → Keyed save s
      → s.mode ≡ mode_edit
      → Every is_text keys
      → length s.edit_buf + length keys < 1024
      → write_file s.fs (some s.edit_filename) (some (s.edit_buf ++ keys)) ≡ some (fs, true)
      → let t = record s { edit_buf = s.edit_buf ++ keys; mode = mode_shell; fs = fs } in
        (press_keys save received s (keys ++ (0x18 ∷ [])) ≡ some (t, map call_putc keys))
        × (read_file t.fs (some s.edit_filename) (some 1024) ≡ some (some (s.edit_buf ++ keys)))
  edited_file s keys fs reached e p room w =
      let v = Keyed-IsValid save reached in
      let text = s.edit_buf ++ keys in
      let clean =
        text_of_nonzero text
          (Every-append is_nonzero s.edit_buf keys v.edit_clean (text_nonzero keys p)) in
      let long = length-append s.edit_buf keys in
      (
        edit_keys s s.edit_buf keys (fs, true) e p room
            (ap (λ l. write_file s.fs (some s.edit_filename) (some l)) clean ∙ w),
        read_file-write_file s.fs fs s.edit_filename text 1024 (Reached-IsValid v.files) w
              (omega arith)
            ∙ ap (λ l. some (some l)) (take_all 1023 text (omega (arith, long))),
      )
