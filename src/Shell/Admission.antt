-- ===== src/Shell/Admission.antt =====
-- kernel/shell.cpp: no one gets behind the login without a password or a new account.
use quillos.Prelude.{
  take, ◌-◌, ◌++◌, ℕ, ◌≡◌, ◌⊎◌, refl, sym, ap, inl, inr, Bool, true, false, Option, none, some,
  List, [], ◌∷◌, length, ltb, ◌==◌, str_eq,
}
use quillos.Users.{User, Users, find, verify, create, set_current}
use quillos.Filesystem.Paths.{fs_strcpy}
use quillos.Shell.Types.{
  Mode, mode_signup_user, mode_signup_pass, mode_signup_confirm, mode_onboard_usecase,
  mode_onboard_packages, mode_login_user, mode_login_pass, mode_edit, mode_shell, Shell, Call,
  call_backspace,
}
use quillos.Shell.Lines.{is_empty}
use quillos.Shell.Editor.{backspace, is_printable}
use quillos.Shell.Login.{
  enter, sign_in, login_user_line, login_pass_line, signup_user_line, signup_pass_line, signed_up,
  signup_confirm_line,
}
use quillos.Shell.{
  echoed, clear_line, type_key, delete_key, handle_line, line_update, shell_update, is_editing,
}
use quillos.Shell.Safety.{is_inside, Sound, none-Sound, some-Sound, if-Sound, test-Sound, >>=-Sound}

both : {A : Type 0} {b : Bool} → b ≡ false → b ≡ true → A
both off on = cc

not_editing : (m : Mode) → is_inside m ≡ false → is_editing m ≡ false
not_editing mode_signup_user out = refl
not_editing mode_signup_pass out = refl
not_editing mode_signup_confirm out = refl
not_editing mode_onboard_usecase out = refl
not_editing mode_onboard_packages out = refl
not_editing mode_login_user out = refl
not_editing mode_login_pass out = refl
not_editing mode_edit out = cc
not_editing mode_shell out = refl

module _ {D : Type 0} (save : List User → D → D) where
  -- The line is the password of the pending name, which is the current user from now on.
  abbrev LoggedIn : Shell D → List ℕ → Shell D → Type 0
  LoggedIn s line t =
      (s.mode ≡ mode_login_pass)
      × (verify s.users (some s.pending_username) line ≡ true)
      × (t.users.current_user ≡ find s.users (some s.pending_username))

  -- The line repeats the pending password, and `create` has made an account of it.
  abbrev SignedUp : Shell D → List ℕ → Shell D → Type 0
  SignedUp s line t =
      let r = create save s.users (some s.pending_username) (some s.pending_password) in
      (s.mode ≡ mode_signup_confirm)
      × (str_eq s.pending_password line ≡ true)
      × (r.1 ≡ true)
      × (t.users.current_user ≡ find r.0 (some s.pending_username))

  -- What it takes to get behind the login.
  abbrev pub Admitted : Shell D → List ℕ → Shell D → Type 0
  Admitted s line t = is_inside t.mode ≡ true → LoggedIn s line t ⊎ SignedUp s line t

  enter-Admitted :
      (s : Shell D) (line : List ℕ) (o : Option ℕ)
      → s.mode ≡ mode_login_pass
      → verify s.users (some s.pending_username) line ≡ true
      → Sound (Admitted s line) (enter (sign_in s) o)
  unfolding set_current
  enter-Admitted s line none e ok = none-Sound
  enter-Admitted s line (some i) e ok =
      if-Sound _ _ _ (some-Sound (λ h. inl (e, ok, refl))) (some-Sound (λ h. inl (e, ok, refl)))

  signed_up-Admitted :
      (s : Shell D) (line : List ℕ) (r : Users D × Bool)
      → create save s.users (some s.pending_username) (some s.pending_password) ≡ r
      → s.mode ≡ mode_signup_confirm
      → str_eq s.pending_password line ≡ true
      → Sound (Admitted s line) (signed_up save s r)
  unfolding set_current
  signed_up-Admitted s line (u, true) made e same = some-Sound (λ h.
      inr (e, same, ap (λ r. r.1) made, ap (λ r. find r.0 (some s.pending_username)) (sym made)))
  signed_up-Admitted s line (u, false) made e same = some-Sound (λ h. cc)

  handle_line-Admitted :
      (received : List ℕ) (s : Shell D) (mode : Mode) (line : List ℕ)
      → s.mode ≡ mode
      → is_inside mode ≡ false
      → Sound (Admitted s line) (handle_line save received s mode line)
  unfolding handle_line login_user_line login_pass_line signup_user_line signup_pass_line
      signup_confirm_line
  handle_line-Admitted received s mode_signup_user line e out =
      if-Sound _ _ _ (some-Sound (λ h. cc))
        (>>=-Sound (fs_strcpy 32 line) _ (λ a e'. some-Sound (λ h. cc)))
  handle_line-Admitted received s mode_signup_pass line e out =
      if-Sound _ _ _ (some-Sound (λ h. cc))
        (>>=-Sound (fs_strcpy 64 line) _ (λ a e'. some-Sound (λ h. cc)))
  handle_line-Admitted received s mode_signup_confirm line e out =
      test-Sound _ _ _ (λ same. signed_up-Admitted s line _ refl e same) (some-Sound (λ h. cc))
  handle_line-Admitted received s mode_onboard_usecase line e out = cc
  handle_line-Admitted received s mode_onboard_packages line e out = cc
  handle_line-Admitted received s mode_login_user line e out =
      if-Sound _ _ _ (some-Sound (λ h. cc))
        (>>=-Sound (fs_strcpy 32 line) _ (λ a e'. some-Sound (λ h. cc)))
  handle_line-Admitted received s mode_login_pass line e out =
      test-Sound _ _ _ (λ ok. enter-Admitted s line _ e ok) (some-Sound (λ h. cc))
  handle_line-Admitted received s mode_edit line e out = cc
  handle_line-Admitted received s mode_shell line e out = cc

  stays :
      (s : Shell D) (line : List ℕ) (u : Shell D) (calls : List Call)
      → is_inside u.mode ≡ false
      → Sound (Admitted s line) (some (u, calls))
  stays s line u calls out = some-Sound {s = u} {calls = calls} (λ h. both out h)

  delete_key-Admitted :
      (s : Shell D) (line : List ℕ)
      → is_inside s.mode ≡ false
      → Sound (Admitted s line) (delete_key s)
  delete_key-Admitted s line out = if-Sound (is_empty s.shell_buffer) _ _ (stays s line s [] out) (
      stays s line (record s { shell_buffer = take (length s.shell_buffer - 1) s.shell_buffer })
        (call_backspace ∷ []) out)

  type_key-Admitted :
      (s : Shell D) (line : List ℕ) (c : ℕ)
      → is_inside s.mode ≡ false
      → Sound (Admitted s line) (type_key s c)
  type_key-Admitted s line c out =
      if-Sound (ltb (length s.shell_buffer) 255) _ _
        (stays s line (record s { shell_buffer = s.shell_buffer ++ (c ∷ []) }) (echoed s c ∷ [])
          out)
        (stays s line s [] out)

  line_update-Admitted :
      (received : List ℕ) (s : Shell D) (c : ℕ)
      → is_inside s.mode ≡ false
      → Sound (Admitted s s.shell_buffer) (line_update save received s c)
  unfolding line_update
  line_update-Admitted received s c out =
      let line = s.shell_buffer in
      if-Sound (c == 0x03) _ _ (stays s line (clear_line s) [] out) (
        if-Sound (c == b'\n') _ _
          (handle_line-Admitted received (clear_line s) s.mode s.shell_buffer refl out)
          (if-Sound (c == backspace) _ _ (delete_key-Admitted s line out) (
            if-Sound (is_printable c) _ _ (type_key-Admitted s line c out)
              (stays s line s [] out))))

  -- A key that leads from outside to a mode behind the login ends a line that is the password of the
  -- pending name, or one that repeats the pending password, of which `create` then makes an account;
  -- the current user is then the one of the pending name.
  pub shell_update-Admitted :
      (received : List ℕ) (s t : Shell D) (c : ℕ) (calls : List Call)
      → is_inside s.mode ≡ false
      → shell_update save received s c ≡ some (t, calls)
      → Admitted s s.shell_buffer t
  unfolding shell_update
  shell_update-Admitted received s t c calls out e =
      (line_update-Admitted received s c out).leaves (t, calls)
        (let plain = not_editing s.mode out in rw plain at e)
