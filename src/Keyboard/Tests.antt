-- ===== src/Keyboard/Tests.antt =====
-- The theorems about the keyboard at concrete states, and runs of its handler.
use quillos.Prelude.{ℕ, ◌≡◌, refl, true, none, some, List, [], ◌∷◌, arith, replicate}
use quillos.Users.{User, no_user, Users}
use quillos.Shell.Types.{mode_login_user, mode_login_pass, Shell, call_putc}
use quillos.Shell.Commands.{zeroed}
use quillos.Shell.Login.{login_user_line}
use quillos.Shell.{handle_line}
use quillos.Keyboard.{Keyboard, released, scan_key}
use quillos.Keyboard.Scanning.{scan, codes, codes_all, scan-codes_all}
use quillos.Keyboard.Bounds.{IsKey, scan_key-bounds}
use quillos.Keyboard.Typing.{press_codes, press_codes-line}

abbrev keep : List User → ℕ → ℕ
keep us n = n

abbrev nobody : Users ℕ
nobody = record { users = replicate 8 no_user; current_user = none; disk = 0 }

abbrev at_login : Shell ℕ
at_login = record (zeroed nobody) { mode = mode_login_user }

abbrev at_password : Shell ℕ
at_password = record at_login {
  mode = mode_login_pass;
  pending_username = b'B' ∷ [];
  password_mode = true;
}

name_run : handle_line keep [] at_login mode_login_user (b'B' ∷ []) ≡ some (at_password, [])
unfolding handle_line login_user_line
name_run = refl

press_codes-line_example :
    press_codes keep [] released at_login (0x2a ∷ 0x30 ∷ 0xb0 ∷ 0xaa ∷ 0x1c ∷ 0x9c ∷ [])
    ≡ some (released, at_password, call_putc b'B' ∷ [])
unfolding codes codes_all
press_codes-line_example =
    press_codes-line keep [] at_login at_password (b'B' ∷ []) [] refl refl (refl, tt) (omega arith)
      name_run

scan-codes_all_example :
    scan released (0x1e ∷ 0x9e ∷ 0x1c ∷ 0x9c ∷ []) ≡ (released, b'a' ∷ b'\n' ∷ [])
unfolding codes codes_all
scan-codes_all_example = scan-codes_all (b'a' ∷ b'\n' ∷ []) (refl, (refl, tt))

abbrev with_ctrl : Keyboard
with_ctrl = record released { ctrl_down = true }

ctrl_x : (scan_key with_ctrl 0x2d).1 ≡ some 0x18
unfolding scan_key
ctrl_x = refl

scan_key-bounds_example : IsKey with_ctrl 0x18
scan_key-bounds_example = scan_key-bounds with_ctrl 0x2d 0x18 ctrl_x

-- With both Shift keys held, the release of one ends the shift.
shift_run : (scan released (0x2a ∷ 0x36 ∷ 0xb6 ∷ 0x1e ∷ [])).1 ≡ b'a' ∷ []
unfolding scan scan_key
shift_run = refl
