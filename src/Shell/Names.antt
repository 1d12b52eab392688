-- ===== src/Shell/Names.antt =====
-- kernel/shell.cpp and shell_mouse.inc: the names of the commands and of the colours.
use quillos.Prelude.{ℕ, Option, none, some, List, [], ◌∷◌, if◌then◌else◌, str_eq}

-- The names that `process_command` knows, in its order; those that only print what other parts keep
-- are one.
pub data Command : Type 0 where
  cmd_report cmd_cls cmd_color cmd_pwd cmd_cd cmd_ls cmd_mkdir cmd_touch cmd_cat cmd_write cmd_rm :
      Command
  cmd_heaptest cmd_spawn cmd_kill cmd_readsec cmd_discover cmd_rjob cmd_run cmd_nano cmd_whoami :
      Command
  cmd_logout cmd_copy cmd_copyf cmd_paste cmd_pastef cmd_cut cmd_pasteh cmd_reboot cmd_halt :
      Command

abbrev commands : List (List ℕ × Command)
commands =
    (b'h' ∷ b'e' ∷ b'l' ∷ b'p' ∷ [], cmd_report)
    ∷ (b'c' ∷ b'l' ∷ b's' ∷ [], cmd_cls)
    ∷ (b'v' ∷ b'e' ∷ b'r' ∷ [], cmd_report)
    ∷ (b'u' ∷ b'p' ∷ b't' ∷ b'i' ∷ b'm' ∷ b'e' ∷ [], cmd_report)
    ∷ (b'c' ∷ b'o' ∷ b'l' ∷ b'o' ∷ b'r' ∷ [], cmd_color)
    ∷ (b'p' ∷ b'w' ∷ b'd' ∷ [], cmd_pwd)
    ∷ (b'c' ∷ b'd' ∷ [], cmd_cd)
    ∷ (b'l' ∷ b's' ∷ [], cmd_ls)
    ∷ (b'm' ∷ b'k' ∷ b'd' ∷ b'i' ∷ b'r' ∷ [], cmd_mkdir)
    ∷ (b't' ∷ b'o' ∷ b'u' ∷ b'c' ∷ b'h' ∷ [], cmd_touch)
    ∷ (b'c' ∷ b'a' ∷ b't' ∷ [], cmd_cat)
    ∷ (b'w' ∷ b'r' ∷ b'i' ∷ b't' ∷ b'e' ∷ [], cmd_write)
    ∷ (b'r' ∷ b'm' ∷ [], cmd_rm)
    ∷ (b'm' ∷ b'e' ∷ b'm' ∷ b'i' ∷ b'n' ∷ b'f' ∷ b'o' ∷ [], cmd_report)
    ∷ (b'h' ∷ b'e' ∷ b'a' ∷ b'p' ∷ b'i' ∷ b'n' ∷ b'f' ∷ b'o' ∷ [], cmd_report)
    ∷ (b'h' ∷ b'e' ∷ b'a' ∷ b'p' ∷ b't' ∷ b'e' ∷ b's' ∷ b't' ∷ [], cmd_heaptest)
    ∷ (b'p' ∷ b's' ∷ [], cmd_report)
    ∷ (b's' ∷ b'p' ∷ b'a' ∷ b'w' ∷ b'n' ∷ [], cmd_spawn)
    ∷ (b'k' ∷ b'i' ∷ b'l' ∷ b'l' ∷ [], cmd_kill)
    ∷ (b'p' ∷ b'r' ∷ b'o' ∷ b'c' ∷ b's' ∷ [], cmd_report)
    ∷ (b'l' ∷ b's' ∷ b'p' ∷ b'c' ∷ b'i' ∷ [], cmd_report)
    ∷ (b'd' ∷ b'i' ∷ b's' ∷ b'k' ∷ b'i' ∷ b'n' ∷ b'f' ∷ b'o' ∷ [], cmd_report)
    ∷ (b'r' ∷ b'e' ∷ b'a' ∷ b'd' ∷ b's' ∷ b'e' ∷ b'c' ∷ [], cmd_readsec)
    ∷ (b'h' ∷ b'e' ∷ b'x' ∷ b'd' ∷ b'u' ∷ b'm' ∷ b'p' ∷ [], cmd_readsec)
    ∷ (b'n' ∷ b'e' ∷ b't' ∷ b'i' ∷ b'n' ∷ b'f' ∷ b'o' ∷ [], cmd_report)
    ∷ (b'p' ∷ b'e' ∷ b'e' ∷ b'r' ∷ b's' ∷ [], cmd_report)
    ∷ (b'd' ∷ b'i' ∷ b's' ∷ b'c' ∷ b'o' ∷ b'v' ∷ b'e' ∷ b'r' ∷ [], cmd_discover)
    ∷ (b'c' ∷ b'l' ∷ b'u' ∷ b's' ∷ b't' ∷ b'e' ∷ b'r' ∷ [], cmd_report)
    ∷ (b'r' ∷ b'j' ∷ b'o' ∷ b'b' ∷ [], cmd_rjob)
    ∷ (b'r' ∷ b'u' ∷ b'n' ∷ [], cmd_run)
    ∷ (b'j' ∷ b'o' ∷ b'b' ∷ b's' ∷ [], cmd_report)
    ∷ (b'i' ∷ b'n' ∷ b't' ∷ b'i' ∷ b'n' ∷ b'f' ∷ b'o' ∷ [], cmd_report)
    ∷ (b'n' ∷ b'a' ∷ b'n' ∷ b'o' ∷ [], cmd_nano)
    ∷ (b's' ∷ b'p' ∷ b'e' ∷ b'c' ∷ b's' ∷ [], cmd_report)
    ∷ (b'w' ∷ b'h' ∷ b'o' ∷ b'a' ∷ b'm' ∷ b'i' ∷ [], cmd_whoami)
    ∷ (b'l' ∷ b'o' ∷ b'g' ∷ b'o' ∷ b'u' ∷ b't' ∷ [], cmd_logout)
    ∷ (b'm' ∷ b'o' ∷ b'u' ∷ b's' ∷ b'e' ∷ b'i' ∷ b'n' ∷ b'f' ∷ b'o' ∷ [], cmd_report)
    ∷ (b'c' ∷ b'o' ∷ b'p' ∷ b'y' ∷ [], cmd_copy)
    ∷ (b'c' ∷ b'o' ∷ b'p' ∷ b'y' ∷ b'f' ∷ [], cmd_copyf)
    ∷ (b'p' ∷ b'a' ∷ b's' ∷ b't' ∷ b'e' ∷ [], cmd_paste)
    ∷ (b'p' ∷ b'a' ∷ b's' ∷ b't' ∷ b'e' ∷ b'f' ∷ [], cmd_pastef)
    ∷ (b'c' ∷ b'u' ∷ b't' ∷ [], cmd_cut)
    ∷ (b'p' ∷ b'a' ∷ b's' ∷ b't' ∷ b'e' ∷ b'h' ∷ [], cmd_pasteh)
    ∷ (b'r' ∷ b'e' ∷ b'b' ∷ b'o' ∷ b'o' ∷ b't' ∷ [], cmd_reboot)
    ∷ (b'h' ∷ b'a' ∷ b'l' ∷ b't' ∷ [], cmd_halt)
    ∷ []

-- The first entry with the name; `none` is an unknown command.
unfoldable pub command_in : List (List ℕ × Command) → List ℕ → Option Command
unfolding str_eq
command_in [] cmd = none
command_in (e ∷ es) cmd = let rest = command_in es cmd in if str_eq cmd e.0 then some e.1 else rest

unfoldable pub command_named : List ℕ → Option Command
unfolding command_in
command_named cmd = command_in commands cmd

abbrev pub color_named : List ℕ → Option ℕ
color_named name =
    if str_eq name (b'r' ∷ b'e' ∷ b'd' ∷ [])
    then some 0xff0000
    else if str_eq name (b'b' ∷ b'l' ∷ b'u' ∷ b'e' ∷ [])
    then some 0x0000ff
    else if str_eq name (b'g' ∷ b'r' ∷ b'e' ∷ b'e' ∷ b'n' ∷ [])
    then some 0x00ff00
    else if str_eq name (b'd' ∷ b'a' ∷ b'r' ∷ b'k' ∷ [])
    then some 0x111111
    else none
