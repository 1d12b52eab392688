-- ===== src/Shell.antt =====
-- kernel/shell.cpp
pub mod Types
pub mod Lines
pub mod Names
pub mod Commands
pub mod Requests
pub mod Pasting
pub mod Editor
pub mod Login
pub mod Safety
pub mod Keeping
pub mod Performing
pub mod Entering
pub mod Keys
pub mod Staying
pub mod Admission
pub mod Typing
pub mod Editing
pub mod Numbers
pub mod Running
mod Tests
use quillos.Prelude.{
  ℕ, suc, ◌-◌, Bool, true, false, not, ◌&&◌, ◌||◌, Option, none, some, List, [], ◌∷◌, ◌++◌, length,
  get_or, take, leb, ltb, ◌==◌, if◌then◌else◌, ◌>>=◌, ◌>>◌, str_eq,
}
use quillos.Users.{
  User, Users, UseCase, usecase_dev, usecase_hosting, usecase_cluster, usecase_daily, user, find,
  verify, create, set_usecase, complete_onboarding, set_current, clear_current,
}
use quillos.Filesystem.{mkdir, touch, rm}
use quillos.Filesystem.Paths.{fs_strcpy}
use Types.{
  Mode, mode_signup_user, mode_signup_pass, mode_signup_confirm, mode_onboard_usecase,
  mode_onboard_packages, mode_login_user, mode_login_pass, mode_edit, mode_shell, shell_buffer_size,
  Shell, Call, call_print, call_putc, call_backspace, call_clear, call_heap_test, call_read_sector,
  call_kill, call_send_discover, call_reboot, call_halt,
}
use Lines.{split_command, is_empty}
use Names.{
  Command, cmd_report, cmd_cls, cmd_color, cmd_pwd, cmd_cd, cmd_ls, cmd_mkdir, cmd_touch, cmd_cat,
  cmd_write, cmd_rm, cmd_heaptest, cmd_spawn, cmd_kill, cmd_readsec, cmd_discover, cmd_rjob,
  cmd_run, cmd_nano, cmd_whoami, cmd_logout, cmd_copy, cmd_copyf, cmd_paste, cmd_pastef, cmd_cut,
  cmd_pasteh, cmd_reboot, cmd_halt, command_named,
}
use Commands.{
  Outcome, quiet, ask, shell_init, cd_command, ls_command, change, cat_command, write_command,
}
use Requests.{spawn_command, with_number, rjob_command, run_command, color_command}
use Pasting.{
  copy_command, copyf_command, paste_command, pastef_command, cut_command, pasteh_command,
}
use Login.{
  usecase_of, login_user_line, login_pass_line, signup_user_line, signup_pass_line,
  signup_confirm_line, choose_usecase, packages_line,
}
use Editor.{is_printable, backspace, nano_command, edit_update}

abbrev pub is_editing : Mode → Bool
is_editing mode_edit = true
is_editing _ = false

module _ {D : Type 0} where
  abbrev current_name : Users D → Option ℕ → List Call
  current_name u none = []
  current_name u (some i) = call_print (user u i).name ∷ []

  pub logout : Shell D → Shell D
  logout s = ask (record s { users = clear_current s.users }) mode_login_user false

  -- The branches of `process_command`.
  pub perform : List ℕ → Shell D → Command → List ℕ → Outcome D
  perform received s cmd_report arg = quiet s
  perform received s cmd_cls arg = some (shell_init s, call_clear ∷ [])
  perform received s cmd_color arg = color_command s arg
  perform received s cmd_pwd arg = some (s, call_print s.cwd ∷ [])
  perform received s cmd_cd arg = cd_command s arg
  perform received s cmd_ls arg = ls_command s arg
  perform received s cmd_mkdir arg = change mkdir s arg
  perform received s cmd_touch arg = change touch s arg
  perform received s cmd_cat arg = cat_command s arg
  perform received s cmd_write arg = write_command s arg
  perform received s cmd_rm arg = change rm s arg
  perform received s cmd_heaptest arg = some (s, call_heap_test ∷ [])
  perform received s cmd_spawn arg = spawn_command s arg
  perform received s cmd_kill arg = with_number call_kill s arg
  perform received s cmd_readsec arg = with_number call_read_sector s arg
  perform received s cmd_discover arg = some (s, call_send_discover ∷ [])
  perform received s cmd_rjob arg = rjob_command s arg
  perform received s cmd_run arg = run_command s arg
  perform received s cmd_nano arg = nano_command s arg
  perform received s cmd_whoami arg = some (s, current_name s.users s.users.current_user)
  perform received s cmd_logout arg = quiet (logout s)
  perform received s cmd_copy arg = copy_command s arg
  perform received s cmd_copyf arg = copyf_command s arg
  perform received s cmd_paste arg = paste_command s
  perform received s cmd_pastef arg = pastef_command s arg
  perform received s cmd_cut arg = cut_command s arg
  perform received s cmd_pasteh arg = pasteh_command s received
  perform received s cmd_reboot arg = some (s, call_reboot ∷ [])
  perform received s cmd_halt arg = some (s, call_halt ∷ [])

  abbrev pub perform_named : List ℕ → Shell D → List ℕ → Option Command → Outcome D
  perform_named received s arg none = quiet s
  perform_named received s arg (some cmd) = perform received s cmd arg

  pub process_command : List ℕ → Shell D → List ℕ → Outcome D
  process_command received s input =
      let parts = split_command input in
      if is_empty parts.0 then quiet s else perform_named received s parts.1 (command_named parts.0)

  abbrev pub clear_line : Shell D → Shell D
  clear_line s = record s { shell_buffer = [] }

  abbrev pub echoed : Shell D → ℕ → Call
  echoed s c = call_putc (if s.password_mode then b'*' else c)

  -- A printable key.
  abbrev pub type_key : Shell D → ℕ → Outcome D
  type_key s c =
      if ltb (length s.shell_buffer) (shell_buffer_size - 1)
      then some (record s { shell_buffer = s.shell_buffer ++ (c ∷ []) }, echoed s c ∷ [])
      else quiet s

  abbrev pub delete_key : Shell D → Outcome D
  delete_key s =
      if is_empty s.shell_buffer
      then quiet s
      else some (
        record s { shell_buffer = take (length s.shell_buffer - 1) s.shell_buffer },
        call_backspace ∷ [],
      )

  module _ (save : List User → D → D) where
    unfoldable pub handle_line : List ℕ → Shell D → Mode → List ℕ → Outcome D
    handle_line received s mode_signup_user line = signup_user_line s line
    handle_line received s mode_signup_pass line = signup_pass_line s line
    handle_line received s mode_signup_confirm line = signup_confirm_line save s line
    handle_line received s mode_onboard_usecase line =
        choose_usecase save s (usecase_of (get_or line 0 0))
    handle_line received s mode_onboard_packages line = packages_line save s line
    handle_line received s mode_login_user line = login_user_line s line
    handle_line received s mode_login_pass line = login_pass_line s line
    handle_line received s mode_edit line = quiet s
    handle_line received s mode_shell line = process_command received s line

    -- `shell_update` outside the editor.
    pub line_update : List ℕ → Shell D → ℕ → Outcome D
    line_update received s c =
        if c == 0x03
        then quiet (clear_line s)
        else if c == b'\n'
        then handle_line received (clear_line s) s.mode s.shell_buffer
        else if c == backspace
        then delete_key s
        else if is_printable c
        then type_key s c
        else quiet s

    pub shell_update : List ℕ → Shell D → ℕ → Outcome D
    shell_update received s c =
        if is_editing s.mode then edit_update s c else line_update received s c
