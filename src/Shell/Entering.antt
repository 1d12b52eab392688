-- ===== src/Shell/Entering.antt =====
-- kernel/shell.cpp: the lines of the login, the sign-up and the onboarding keep the shell valid.
use quillos.Prelude.{
  ℕ, ◌<◌, ◌≡◌, refl, Bool, true, false, ◌||◌, Option, none, some, List, [], arith, length, get_or,
  ◌==◌,
}
use quillos.Users.{User, Users, UseCase, find, set_usecase, complete_onboarding, set_current}
use quillos.Users.Creation.{create-found, find-active, put-active}
use quillos.Filesystem.Paths.{fs_strcpy}
use quillos.Shell.Types.{
  Mode, mode_signup_user, mode_signup_pass, mode_signup_confirm, mode_onboard_usecase,
  mode_onboard_packages, mode_login_user, mode_login_pass, mode_edit, mode_shell, Shell,
}
use quillos.Shell.Commands.{ask}
use quillos.Shell.Login.{
  enter, with_users, sign_in, login_user_line, login_pass_line, signup_user_line, signup_pass_line,
  signed_up, signup_confirm_line, choose_usecase, may_install, packages_line,
}
use quillos.Shell.{handle_line}
use quillos.Shell.Safety.{
  asks_password, is_inside, HasUser, IsValid, Sound, none-Sound, some-Sound, if-Sound, >>=-Sound,
  fs_strcpy-fits,
}
use quillos.Shell.Performing.{process_command-Sound}

module _ {D : Type 0} where
  -- The next prompt, with texts and users that are fit for it.
  prompt :
      (s : Shell D) (mode : Mode) (name password : List ℕ) (u : Users D)
      → IsValid s
      → length name < 32
      → length password < 64
      → (is_inside mode ≡ true → HasUser u)
      → IsValid (record s {
        mode = mode;
        password_mode = asks_password mode;
        pending_username = name;
        pending_password = password;
        users = u;
      })
  prompt s mode name password u v n p h = record {
    line_fits = v.line_fits;
    cwd_fits = v.cwd_fits;
    filename_fits = v.filename_fits;
    edit_fits = v.edit_fits;
    edit_clean = v.edit_clean;
    username_fits = n;
    password_fits = p;
    hides = refl;
    has_user = h;
    files = v.files;
    clip = v.clip;
  }

  -- A prompt outside, where nothing but the name is new.
  named :
      (s : Shell D) (mode : Mode) (name : List ℕ)
      → IsValid s
      → length name < 32
      → is_inside mode ≡ false
      → IsValid (ask (record s { pending_username = name }) mode (asks_password mode))
  named s mode name v n out =
      prompt s mode name s.pending_password s.users v n v.password_fits (λ i. cc)

  with_password :
      (s : Shell D) (mode : Mode) (password : List ℕ)
      → IsValid s
      → length password < 64
      → is_inside mode ≡ false
      → IsValid (ask (record s { pending_password = password }) mode (asks_password mode))
  with_password s mode password v p out =
      prompt s mode s.pending_username password s.users v v.username_fits p (λ i. cc)

  login_user_line-Sound :
      (s : Shell D) (line : List ℕ) → IsValid s → Sound IsValid (login_user_line s line)
  unfolding login_user_line
  login_user_line-Sound s line v =
      if-Sound _ _ _
        (some-Sound (named s mode_login_user s.pending_username v v.username_fits refl))
        (>>=-Sound (fs_strcpy 32 line) _ (λ name e.
          some-Sound (named s mode_login_pass name v (fs_strcpy-fits 32 line name e) refl)))

  signup_user_line-Sound :
      (s : Shell D) (line : List ℕ) → IsValid s → Sound IsValid (signup_user_line s line)
  unfolding signup_user_line
  signup_user_line-Sound s line v =
      if-Sound _ _ _
        (some-Sound (named s mode_signup_user s.pending_username v v.username_fits refl))
        (>>=-Sound (fs_strcpy 32 line) _ (λ name e.
          some-Sound (named s mode_signup_pass name v (fs_strcpy-fits 32 line name e) refl)))

  signup_pass_line-Sound :
      (s : Shell D) (line : List ℕ) → IsValid s → Sound IsValid (signup_pass_line s line)
  unfolding signup_pass_line
  signup_pass_line-Sound s line v =
      if-Sound _ _ _
        (some-Sound (with_password s mode_signup_pass s.pending_password v v.password_fits refl))
        (>>=-Sound (fs_strcpy 64 line) _ (λ password e. some-Sound (
          with_password s mode_signup_confirm password v (fs_strcpy-fits 64 line password e) refl)))

  -- The user that a look-up has found has signed in.
  found-HasUser :
      (u : Users D) (name : List ℕ) (i : ℕ)
      → find u (some name) ≡ some i
      → HasUser (set_current u (find u (some name)))
  unfolding set_current
  found-HasUser u name i e = (i, e, find-active u name i e)

  signed_in :
      (s : Shell D) (u : Users D) (mode : Mode) (password : List ℕ) (i : ℕ)
      → IsValid s
      → length password < 64
      → find u (some s.pending_username) ≡ some i
      → IsValid (
          ask
            (record (sign_in (with_users s u)) { pending_password = password })
            mode
            (asks_password mode))
  signed_in s u mode password i v p e =
      prompt s mode s.pending_username password (set_current u (find u (some s.pending_username))) v
        v.username_fits p (λ inside. found-HasUser u s.pending_username i e)

  enter-Sound :
      (s : Shell D) (o : Option ℕ)
      → IsValid s
      → find s.users (some s.pending_username) ≡ o
      → Sound IsValid (enter (sign_in s) o)
  enter-Sound s none v e = none-Sound
  enter-Sound s (some i) v e =
      if-Sound _ _ _
        (some-Sound (signed_in s s.users mode_shell s.pending_password i v v.password_fits e))
        (some-Sound
          (signed_in s s.users mode_onboard_usecase s.pending_password i v v.password_fits e))

  login_pass_line-Sound :
      (s : Shell D) (line : List ℕ) → IsValid s → Sound IsValid (login_pass_line s line)
  unfolding login_pass_line
  login_pass_line-Sound s line v =
      if-Sound _ _ _ (enter-Sound s _ v refl)
        (some-Sound (named s mode_login_user [] v (omega arith) refl))

  module _ (save : List User → D → D) where
    signed_up-Sound :
        (s : Shell D) (r : Users D × Bool)
        → IsValid s
        → (r.1 ≡ true → (i : ℕ) × (find r.0 (some s.pending_username) ≡ some i))
        → Sound IsValid (signed_up save s r)
    signed_up-Sound s (u, true) v found =
        some-Sound
          (signed_in s u mode_onboard_usecase [] (found refl).0 v (omega arith) (found refl).1)
    signed_up-Sound s (u, false) v found = some-Sound (
        prompt s mode_signup_user s.pending_username s.pending_password u v v.username_fits
          v.password_fits (λ i. cc))

    signup_confirm_line-Sound :
        (s : Shell D) (line : List ℕ) → IsValid s → Sound IsValid (signup_confirm_line save s line)
    unfolding signup_confirm_line
    signup_confirm_line-Sound s line v =
        if-Sound _ _ _
          (signed_up-Sound s _ v (λ ok.
            create-found save s.users s.pending_username s.pending_password
              (let fits = v.username_fits in omega arith) ok))
          (some-Sound (with_password s mode_signup_pass [] v (omega arith) refl))

    set_usecase-HasUser :
        (u : Users D) (uc : UseCase) → HasUser u → HasUser (set_usecase save u u.current_user uc)
    unfolding set_usecase
    set_usecase-HasUser u uc (i, e, on) =
        rw e (i, refl, put-active save u i i (λ u'. record u' { usecase = uc }) (λ u' h. h) on)

    complete_onboarding-HasUser :
        (u : Users D) → HasUser u → HasUser (complete_onboarding save u u.current_user)
    unfolding complete_onboarding
    complete_onboarding-HasUser u (i, e, on) =
        rw e (i, refl, put-active save u i i (λ u'. record u' { onboarded = true }) (λ u' h. h) on)

    choose_usecase-Sound :
        (s : Shell D) (o : Option UseCase)
        → IsValid s
        → HasUser s.users
        → Sound IsValid (choose_usecase save s o)
    choose_usecase-Sound s none v h = some-Sound (
        prompt s mode_onboard_usecase s.pending_username s.pending_password s.users v
          v.username_fits v.password_fits (λ i. h))
    choose_usecase-Sound s (some uc) v h = some-Sound (
        prompt s mode_onboard_packages s.pending_username s.pending_password _ v v.username_fits
          v.password_fits (λ i. set_usecase-HasUser s.users uc h))

    packages_line-Sound :
        (s : Shell D) (line : List ℕ)
        → IsValid s
        → HasUser s.users
        → Sound IsValid (packages_line save s line)
    unfolding packages_line
    packages_line-Sound s line v h =
        >>=-Sound
          (may_install (get_or line 0 0 == b'y' || get_or line 0 0 == b'Y') s.users.current_user) _
          (λ a e. some-Sound (
            prompt s mode_shell s.pending_username s.pending_password _ v v.username_fits
              v.password_fits (λ i. complete_onboarding-HasUser s.users h)))

    -- A line typed at any prompt leaves a valid shell.
    pub handle_line-Sound :
        (received : List ℕ) (s : Shell D) (mode : Mode) (line : List ℕ)
        → IsValid s
        → s.mode ≡ mode
        → Sound IsValid (handle_line save received s mode line)
    unfolding handle_line
    handle_line-Sound received s mode_signup_user line v e = signup_user_line-Sound s line v
    handle_line-Sound received s mode_signup_pass line v e = signup_pass_line-Sound s line v
    handle_line-Sound received s mode_signup_confirm line v e = signup_confirm_line-Sound s line v
    handle_line-Sound received s mode_onboard_usecase line v e =
        choose_usecase-Sound s _ v (v.has_user (rw e refl))
    handle_line-Sound received s mode_onboard_packages line v e =
        packages_line-Sound s line v (v.has_user (rw e refl))
    handle_line-Sound received s mode_login_user line v e = login_user_line-Sound s line v
    handle_line-Sound received s mode_login_pass line v e = login_pass_line-Sound s line v
    handle_line-Sound received s mode_edit line v e = some-Sound v
    handle_line-Sound received s mode_shell line v e = process_command-Sound received s line v e
