-- ===== src/Shell/Typing.antt =====
-- kernel/shell.cpp: what a line that is typed does, and what it shows.
use mathlib.Core.Path.{subst}
use quillos.Prelude.{
  append_assoc, append_nil, some_eq, >>=-eq-some, Every, ℕ, ◌+◌, ◌<◌, ◌≡◌, refl, sym, ap, ◌∙◌, true,
  false, some, List, [], ◌∷◌, ◌++◌, map, replicate, arith, length, length-append, ltb, ◌==◌, ◌>>=◌,
}
use quillos.Users.{User}
use quillos.Shell.Types.{
  Mode, mode_signup_user, mode_signup_pass, mode_signup_confirm, mode_onboard_usecase,
  mode_onboard_packages, mode_login_user, mode_login_pass, mode_edit, mode_shell, Shell, Call,
  call_putc,
}
use quillos.Shell.Commands.{Outcome, quiet}
use quillos.Shell.Editor.{backspace, is_printable}
use quillos.Shell.{echoed, is_editing, clear_line, handle_line, line_update, shell_update}
use quillos.Shell.Safety.{asks_password}
use quillos.Shell.Keys.{Keyed, pressed, Keyed-IsValid}

not_editing : (m : Mode) → asks_password m ≡ true → is_editing m ≡ false
not_editing mode_edit asks = cc
not_editing mode_signup_user asks = refl
not_editing mode_signup_pass asks = refl
not_editing mode_signup_confirm asks = refl
not_editing mode_onboard_usecase asks = refl
not_editing mode_onboard_packages asks = refl
not_editing mode_login_user asks = refl
not_editing mode_login_pass asks = refl
not_editing mode_shell asks = refl

module _ {D : Type 0} (save : List User → D → D) (received : List ℕ) where
  -- The next keys, and all that they call.
  unfoldable pub press_keys : Shell D → List ℕ → Outcome D
  press_keys s [] = quiet s
  press_keys s (c ∷ cs) = do
    (t, calls) ← shell_update save received s c
    (u, more) ← press_keys t cs
    some (u, calls ++ more)

  abbrev with_line : Shell D → List ℕ → Shell D
  with_line s line = record s { shell_buffer = line }

  -- One printable key, with room in the buffer.
  press_key :
      (s : Shell D) (c : ℕ)
      → is_editing s.mode ≡ false
      → is_printable c ≡ true
      → length s.shell_buffer < 255
      → shell_update save received s c
        ≡ some (with_line s (s.shell_buffer ++ (c ∷ [])), echoed s c ∷ [])
  unfolding shell_update line_update
  press_key s c e p room =
      let ctrl : (c == 0x03) ≡ false = ground (arith, p) in
      let enter : (c == b'\n') ≡ false = ground (arith, p) in
      let back : (c == backspace) ≡ false = ground (arith, p) in
      let fits : ltb (length s.shell_buffer) 255 ≡ true = ground (arith, room) in
      rw (e, ctrl, enter, back, p, fits) refl

  -- Printable keys that fit are added to the line, and echoed.
  press_keys-printable :
      (s : Shell D) (b line : List ℕ)
      → is_editing s.mode ≡ false
      → Every is_printable line
      → length b + length line < 256
      → press_keys (with_line s b) line ≡ some (with_line s (b ++ line), map (echoed s) line)
  unfolding press_keys
  press_keys-printable s b [] e p room = ap (λ l. some (with_line s l, [])) (sym (append_nil b))
  press_keys-printable s b (c ∷ cs) e p room =
      let one = press_key (with_line s b) c e p.0 (omega arith) in
      let long = length-append b (c ∷ []) in
      let rest = press_keys-printable s (b ++ (c ∷ [])) cs e p.1 (omega (arith, long)) in
      rw (one, rest, append_assoc b (c ∷ []) cs) refl

  -- The key that ends a line.
  press_enter :
      (s : Shell D)
      → is_editing s.mode ≡ false
      → shell_update save received s b'\n'
        ≡ handle_line save received (clear_line s) s.mode s.shell_buffer
  unfolding shell_update line_update
  press_enter s e = rw e refl

  press_keys-ended :
      (s t : Shell D) (b line : List ℕ) (calls : List Call)
      → is_editing s.mode ≡ false
      → Every is_printable line
      → length b + length line < 256
      → handle_line save received (clear_line s) s.mode (b ++ line) ≡ some (t, calls)
      → press_keys (with_line s b) (line ++ (b'\n' ∷ [])) ≡ some (t, map (echoed s) line ++ calls)
  unfolding press_keys
  press_keys-ended s t b [] calls e p room handled =
      let same : handle_line save received (clear_line s) s.mode b ≡ some (t, calls) =
        rw (append_nil b) at handled in
      rw (press_enter (with_line s b) e, same, append_nil calls) refl
  press_keys-ended s t b (c ∷ cs) calls e p room handled =
      let one = press_key (with_line s b) c e p.0 (omega arith) in
      let long = length-append b (c ∷ []) in
      let rest =
        press_keys-ended s t (b ++ (c ∷ [])) cs calls e p.1 (omega (arith, long))
          (rw (append_assoc b (c ∷ []) cs) handled) in
      rw (one, rest) refl

  -- A printable line of at most 255 bytes that is typed at an empty prompt outside the editor, and
  -- ended, is handled as it was typed; its keys are echoed first.
  pub press_keys-line :
      (s t : Shell D) (line : List ℕ) (calls : List Call)
      → is_editing s.mode ≡ false
      → s.shell_buffer ≡ []
      → Every is_printable line
      → length line < 256
      → handle_line save received s s.mode line ≡ some (t, calls)
      → press_keys s (line ++ (b'\n' ∷ [])) ≡ some (t, map (echoed s) line ++ calls)
  press_keys-line s t line calls e empty p room handled =
      let same : clear_line s ≡ s = ap (with_line s) (sym empty) in
      ap (λ u. press_keys u (line ++ (b'\n' ∷ []))) (sym same)
      ∙ press_keys-ended s t [] line calls e p (omega (arith, room))
          (ap (λ u. handle_line save received u s.mode line) same ∙ handled)

  all_stars :
      (s : Shell D) (line : List ℕ)
      → s.password_mode ≡ true
      → map (echoed s) line ≡ replicate (length line) (call_putc b'*')
  all_stars s [] h = refl
  all_stars s (c ∷ cs) h = rw (h, all_stars s cs h) refl

  -- In every state that keys lead to and that asks for a password, printable keys that fit are added
  -- to the line, and each shows as a star.
  pub password_hidden :
      (s : Shell D) (line : List ℕ)
      → Keyed save s
      → asks_password s.mode ≡ true
      → Every is_printable line
      → length s.shell_buffer + length line < 256
      → press_keys s line
        ≡ some (
          record s { shell_buffer = s.shell_buffer ++ line },
          replicate (length line) (call_putc b'*'),
        )
  password_hidden s line reached asks p room =
      let v = Keyed-IsValid save reached in
      press_keys-printable s s.shell_buffer line (not_editing s.mode asks) p room
      ∙ ap (λ calls. some (with_line s (s.shell_buffer ++ line), calls))
          (all_stars s line (v.hides ∙ asks))

  -- Keys lead on from where keys have led.
  pub press_keys-Keyed :
      (s t : Shell D) (keys : List ℕ) (calls : List Call)
      → Keyed save s
      → press_keys s keys ≡ some (t, calls)
      → Keyed save t
  unfolding press_keys
  press_keys-Keyed s t [] calls h e =
      let same = ap (λ (r : Shell D × List Call). r.0) (some_eq e) in subst (Keyed save) same h
  press_keys-Keyed s t (c ∷ cs) calls h e =
      let one = >>=-eq-some (shell_update save received s c) _ (t, calls) e in
      let more = >>=-eq-some (press_keys one.0.0 cs) _ (t, calls) one.2 in
      let same = ap (λ (r : Shell D × List Call). r.0) (some_eq more.2) in
      subst (Keyed save) same
        (press_keys-Keyed one.0.0 more.0.0 cs more.0.1 (pressed received c h one.1) more.1)
