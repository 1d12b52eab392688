-- ===== src/Shell/Login.antt =====
-- kernel/shell.cpp: the lines typed at the prompts of the login, the sign-up and the onboarding.
use quillos.Prelude.{
  ℕ, Bool, true, false, ◌||◌, Option, none, some, List, [], length, get_or, ltb, ◌==◌,
  if◌then◌else◌, ◌>>=◌, str_eq,
}
use quillos.Users.{
  User, Users, UseCase, usecase_dev, usecase_hosting, usecase_cluster, usecase_daily, user, find,
  verify, create, set_usecase, complete_onboarding, set_current,
}
use quillos.Filesystem.Paths.{fs_strcpy}
use quillos.Shell.Types.{
  mode_signup_user, mode_signup_pass, mode_signup_confirm, mode_onboard_usecase,
  mode_onboard_packages, mode_login_user, mode_login_pass, mode_shell, Shell,
}
use quillos.Shell.Lines.{is_empty}
use quillos.Shell.Commands.{Outcome, quiet, ask}

-- The sizes of `pending_username` and `pending_password`.
abbrev pub user_room : ℕ
user_room = 32

abbrev pub pass_room : ℕ
pass_room = 64

-- `Users::UseCase` of the first byte of a line.
abbrev pub usecase_of : ℕ → Option UseCase
usecase_of c =
    if c == b'1'
    then some usecase_dev
    else if c == b'2'
    then some usecase_hosting
    else if c == b'3'
    then some usecase_cluster
    else if c == b'4'
    then some usecase_daily
    else none

-- `u->usecase`, of a pointer that must not be null.
abbrev pub may_install : Bool → Option ℕ → Option Bool
may_install false current = some false
may_install true none = none
may_install true (some i) = some true

module _ {D : Type 0} where
  -- `u->onboarded`, of a pointer that must not be null.
  abbrev pub enter : Shell D → Option ℕ → Outcome D
  enter s none = none
  enter s (some i) =
      if (user s.users i).onboarded
      then quiet (ask s mode_shell false)
      else quiet (ask s mode_onboard_usecase false)

  abbrev pub with_users : Shell D → Users D → Shell D
  with_users s u = record s { users = u }

  -- `pending_username` as the current user.
  abbrev pub sign_in : Shell D → Shell D
  sign_in s = with_users s (set_current s.users (find s.users (some s.pending_username)))

  unfoldable pub login_user_line : Shell D → List ℕ → Outcome D
  login_user_line s line = if is_empty line then quiet (ask s mode_login_user false) else do
    name ← fs_strcpy user_room line
    quiet (ask (record s { pending_username = name }) mode_login_pass true)

  unfoldable pub login_pass_line : Shell D → List ℕ → Outcome D
  login_pass_line s line =
      if verify s.users (some s.pending_username) line
      then enter (sign_in s) (find s.users (some s.pending_username))
      else quiet (ask (record s { pending_username = [] }) mode_login_user false)

  unfoldable pub signup_user_line : Shell D → List ℕ → Outcome D
  signup_user_line s line = if is_empty line then quiet (ask s mode_signup_user false) else do
    name ← fs_strcpy user_room line
    quiet (ask (record s { pending_username = name }) mode_signup_pass true)

  unfoldable pub signup_pass_line : Shell D → List ℕ → Outcome D
  signup_pass_line s line = if ltb (length line) 3 then quiet (ask s mode_signup_pass true) else do
    password ← fs_strcpy pass_room line
    quiet (ask (record s { pending_password = password }) mode_signup_confirm true)

  module _ (save : List User → D → D) where
    -- What `create` has done.
    abbrev pub signed_up : Shell D → Users D × Bool → Outcome D
    signed_up s r =
        if r.1
        then quiet (
            ask (record (sign_in (with_users s r.0)) { pending_password = [] }) mode_onboard_usecase
              false)
        else quiet (ask (with_users s r.0) mode_signup_user false)

    unfoldable pub signup_confirm_line : Shell D → List ℕ → Outcome D
    signup_confirm_line s line =
        if str_eq s.pending_password line
        then signed_up s (create save s.users (some s.pending_username) (some s.pending_password))
        else quiet (ask (record s { pending_password = [] }) mode_signup_pass true)

    abbrev pub choose_usecase : Shell D → Option UseCase → Outcome D
    choose_usecase s none = quiet (ask s mode_onboard_usecase false)
    choose_usecase s (some uc) = quiet (
        ask (with_users s (set_usecase save s.users s.users.current_user uc)) mode_onboard_packages
          false)

    unfoldable pub packages_line : Shell D → List ℕ → Outcome D
    packages_line s line =
        let c = get_or line 0 0 in
        may_install (c == b'y' || c == b'Y') s.users.current_user >>= (λ _. quiet (
          ask (with_users s (complete_onboarding save s.users s.users.current_user)) mode_shell
            false))
