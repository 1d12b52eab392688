-- ===== src/Shell/Keys.antt =====
-- kernel/shell.cpp: every key keeps the shell valid, and what holds of every state that keys lead to.
use quillos.Prelude.{
  Every, is_nonzero, Every-append, Every-take, ℕ, suc, ◌-◌, ◌<◌, ◌≡◌, refl, ◌∙◌, true, some, List,
  [], ◌∷◌, ◌++◌, arith, length, take, length-take, length-append, ltb, text_of,
}
use quillos.Users.{User, Users}
use quillos.Filesystem.Spec.{write_op}
use quillos.Clipboard.Bounds as Clip
use quillos.Filesystem.Refinement.{starts}
use quillos.Filesystem.{init, write_file}
use quillos.Shell.Types.{
  Mode, mode_signup_user, mode_signup_pass, mode_signup_confirm, mode_onboard_usecase,
  mode_onboard_packages, mode_login_user, mode_login_pass, mode_edit, mode_shell, Shell, Call,
}
use quillos.Shell.Commands.{with_fs, zeroed, shell_init}
use quillos.Shell.Editor.{insert, delete_last, save_file, leave_editor, edit_update}
use quillos.Shell.{clear_line, type_key, delete_key, line_update, shell_update, is_editing}
use quillos.Shell.Safety.{
  IsValid, Sound, some-Sound, if-Sound, >>=-Sound, test-Sound, with_fs-IsValid,
}
use quillos.Shell.Keeping.{shell_init-IsValid}
use quillos.Shell.Entering.{handle_line-Sound}

-- A text that is not full takes one more byte.
added : (text : List ℕ) (c n : ℕ) → length text < n → length (text ++ (c ∷ [])) < suc n
added text c n short = omega (arith, length-append text (c ∷ []))

shorter : (text : List ℕ) (n : ℕ) → length text < n → length (take (length text - 1) text) < n
shorter text n short = omega (arith, length-take (length text - 1) text)

editing : (m : Mode) → is_editing m ≡ true → m ≡ mode_edit
editing mode_edit e = refl
editing mode_signup_user e = cc
editing mode_signup_pass e = cc
editing mode_signup_confirm e = cc
editing mode_onboard_usecase e = cc
editing mode_onboard_packages e = cc
editing mode_login_user e = cc
editing mode_login_pass e = cc
editing mode_shell e = cc

module _ {D : Type 0} where
  -- `shell_init` sets up the filesystem, so that it does not matter what was there.
  boot-IsValid : (u : Users D) → IsValid (shell_init (zeroed u))
  unfolding shell_init init
  boot-IsValid u =
      shell_init-IsValid (record (zeroed u) { fs = init })
        (record {
          line_fits = omega arith;
          cwd_fits = omega arith;
          filename_fits = omega arith;
          edit_fits = omega arith;
          edit_clean = tt;
          username_fits = omega arith;
          password_fits = omega arith;
          hides = refl;
          has_user = λ inside. cc;
          files = starts;
          clip = Clip.init-IsValid;
        })

  with_line :
      (s : Shell D) (line : List ℕ)
      → IsValid s
      → length line < 256
      → IsValid (record s { shell_buffer = line })
  with_line s line v fits = record {
    line_fits = fits;
    cwd_fits = v.cwd_fits;
    filename_fits = v.filename_fits;
    edit_fits = v.edit_fits;
    edit_clean = v.edit_clean;
    username_fits = v.username_fits;
    password_fits = v.password_fits;
    hides = v.hides;
    has_user = v.has_user;
    files = v.files;
    clip = v.clip;
  }

  with_edit :
      (s : Shell D) (text : List ℕ)
      → IsValid s
      → length text < 1024
      → Every is_nonzero text
      → IsValid (record s { edit_buf = text })
  with_edit s text v fits clean = record {
    line_fits = v.line_fits;
    cwd_fits = v.cwd_fits;
    filename_fits = v.filename_fits;
    edit_fits = fits;
    edit_clean = clean;
    username_fits = v.username_fits;
    password_fits = v.password_fits;
    hides = v.hides;
    has_user = v.has_user;
    files = v.files;
    clip = v.clip;
  }

  leave_editor-IsValid : (s : Shell D) → IsValid s → s.mode ≡ mode_edit → IsValid (leave_editor s)
  leave_editor-IsValid s v e =
      let h = v.has_user (rw e refl) in
      record {
        line_fits = v.line_fits;
        cwd_fits = v.cwd_fits;
        filename_fits = v.filename_fits;
        edit_fits = v.edit_fits;
        edit_clean = v.edit_clean;
        username_fits = v.username_fits;
        password_fits = v.password_fits;
        hides = v.hides ∙ rw e refl;
        has_user = λ i. h;
        files = v.files;
        clip = v.clip;
      }

  type_key-Sound : (s : Shell D) (c : ℕ) → IsValid s → Sound IsValid (type_key s c)
  type_key-Sound s c v =
      test-Sound (ltb (length s.shell_buffer) 255) _ _
        (λ e. some-Sound (with_line s _ v (added s.shell_buffer c 255 (ground (arith, e)))))
        (some-Sound v)

  delete_key-Sound : (s : Shell D) → IsValid s → Sound IsValid (delete_key s)
  delete_key-Sound s v =
      if-Sound _ _ _ (some-Sound v)
        (some-Sound (with_line s _ v (shorter s.shell_buffer 256 v.line_fits)))

  insert-Sound :
      (s : Shell D) (c : ℕ) → IsValid s → is_nonzero c ≡ true → Sound IsValid (insert s c)
  insert-Sound s c v clean =
      test-Sound (ltb (length s.edit_buf) 1023) _ _
        (λ e. some-Sound (
          with_edit s _ v (added s.edit_buf c 1023 (ground (arith, e)))
            (Every-append is_nonzero s.edit_buf (c ∷ []) v.edit_clean (clean, tt))))
        (some-Sound v)

  delete_last-Sound : (s : Shell D) → IsValid s → Sound IsValid (delete_last s)
  delete_last-Sound s v = if-Sound _ _ _ (some-Sound v) (
      some-Sound (
        with_edit s _ v (shorter s.edit_buf 1024 v.edit_fits)
          (Every-take is_nonzero _ s.edit_buf v.edit_clean)))

  save_file-Sound :
      (s : Shell D) (leave : Shell D → Shell D)
      → IsValid s
      → s.mode ≡ mode_edit
      → ((t : Shell D) → IsValid t → t.mode ≡ mode_edit → IsValid (leave t))
      → Sound IsValid (save_file s leave)
  unfolding save_file
  save_file-Sound s leave v here keep =
      >>=-Sound (write_file s.fs (some s.edit_filename) (some (text_of s.edit_buf))) _ (λ r e.
        some-Sound (
          keep (with_fs s r.0)
            (with_fs-IsValid s (write_op (some s.edit_filename) (some (text_of s.edit_buf))) r v e)
            here))

  edit_update-Sound :
      (s : Shell D) (c : ℕ) → IsValid s → s.mode ≡ mode_edit → Sound IsValid (edit_update s c)
  unfolding edit_update
  edit_update-Sound s c v here =
      if-Sound _ _ _ (save_file-Sound s leave_editor v here (λ t. leave_editor-IsValid t)) (
        if-Sound _ _ _ (save_file-Sound s (λ t. t) v here (λ t w e. w)) (
          if-Sound _ _ _ (some-Sound (leave_editor-IsValid s v here)) (
            if-Sound _ _ _ (delete_last-Sound s v)
              (test-Sound _ _ _ (λ e. insert-Sound s c v (ground (arith, e))) (some-Sound v)))))

  module _ (save : List User → D → D) where
    line_update-Sound :
        (received : List ℕ) (s : Shell D) (c : ℕ)
        → IsValid s
        → Sound IsValid (line_update save received s c)
    unfolding line_update
    line_update-Sound received s c v =
        let cleared = with_line s [] v (omega arith) in
        if-Sound _ _ _ (some-Sound cleared) (
          if-Sound _ _ _
            (handle_line-Sound save received (clear_line s) s.mode s.shell_buffer cleared refl)
            (if-Sound _ _ _ (delete_key-Sound s v)
              (if-Sound _ _ _ (type_key-Sound s c v) (some-Sound v))))

    -- A key in any mode leaves a valid shell.
    pub shell_update-Sound :
        (received : List ℕ) (s : Shell D) (c : ℕ)
        → IsValid s
        → Sound IsValid (shell_update save received s c)
    unfolding shell_update
    shell_update-Sound received s c v =
        test-Sound (is_editing s.mode) _ _ (λ e. edit_update-Sound s c v (editing s.mode e))
          (line_update-Sound received s c v)

    -- The states that keys lead to from the first `shell_init` while no call writes past a buffer, with what the host's terminal has
    -- sent by then.
    pub data Keyed : Shell D → Type 0 where
      booted : (u : Users D) → Keyed (shell_init (zeroed u))
      pressed :
          {s t : Shell D} {calls : List Call} (received : List ℕ) (c : ℕ)
          → Keyed s
          → shell_update save received s c ≡ some (t, calls)
          → Keyed t

    -- They are valid.
    pub Keyed-IsValid : {s : Shell D} → Keyed s → IsValid s
    Keyed-IsValid (booted u) = boot-IsValid u
    Keyed-IsValid (pressed {s = s} {t = t} {calls = calls} received c h e) =
        (shell_update-Sound received s c (Keyed-IsValid h)).leaves (t, calls) e
