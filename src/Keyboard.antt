-- ===== src/Keyboard.antt =====
-- kernel/keyboard.cpp: the scancodes of the keyboard, its modifiers, and the bytes for the shell.
pub mod Scanning
pub mod Typing
pub mod Bounds
mod Tests
use quillos.Prelude.{
  ℕ, zero, suc, ◌+◌, ◌-◌, ◌%◌, Bool, true, false, not, ◌&&◌, ◌||◌, Option, none, some, List, [],
  ◌∷◌, ◌++◌, length, get_or, leb, ◌==◌, if◌then◌else◌, ◌>>=◌,
}
use quillos.Users.{User}
use quillos.Shell.Types.{Shell, Call}
use quillos.Shell.{shell_update}

abbrev pub sc_lower : List ℕ
sc_lower =
    0 ∷ 27 ∷ b'1' ∷ b'2' ∷ b'3' ∷ b'4' ∷ b'5' ∷ b'6' ∷ b'7' ∷ b'8' ∷ b'9' ∷ b'0' ∷ b'-' ∷ b'=' ∷ 8
    ∷ 9 ∷ b'q' ∷ b'w' ∷ b'e' ∷ b'r' ∷ b't' ∷ b'y' ∷ b'u' ∷ b'i' ∷ b'o' ∷ b'p' ∷ b'[' ∷ b']' ∷ 10 ∷ 0
    ∷ b'a' ∷ b's' ∷ b'd' ∷ b'f' ∷ b'g' ∷ b'h' ∷ b'j' ∷ b'k' ∷ b'l' ∷ b';' ∷ 39 ∷ b'`' ∷ 0 ∷ 92
    ∷ b'z' ∷ b'x' ∷ b'c' ∷ b'v' ∷ b'b' ∷ b'n' ∷ b'm' ∷ b',' ∷ b'.' ∷ b'/' ∷ 0 ∷ b'*' ∷ 0 ∷ b' ' ∷ []

abbrev pub sc_upper : List ℕ
sc_upper =
    0 ∷ 27 ∷ b'!' ∷ b'@' ∷ b'#' ∷ b'$' ∷ b'%' ∷ b'^' ∷ b'&' ∷ b'*' ∷ b'(' ∷ b')' ∷ b'_' ∷ b'+' ∷ 8
    ∷ 9 ∷ b'Q' ∷ b'W' ∷ b'E' ∷ b'R' ∷ b'T' ∷ b'Y' ∷ b'U' ∷ b'I' ∷ b'O' ∷ b'P' ∷ b'{' ∷ b'}' ∷ 10 ∷ 0
    ∷ b'A' ∷ b'S' ∷ b'D' ∷ b'F' ∷ b'G' ∷ b'H' ∷ b'J' ∷ b'K' ∷ b'L' ∷ b':' ∷ b'"' ∷ b'~' ∷ 0 ∷ b'|'
    ∷ b'Z' ∷ b'X' ∷ b'C' ∷ b'V' ∷ b'B' ∷ b'N' ∷ b'M' ∷ b'<' ∷ b'>' ∷ b'?' ∷ 0 ∷ b'*' ∷ 0 ∷ b' ' ∷ []

-- The variables of keyboard.cpp.
pub record Keyboard : Type 0 where
  pub shift_down : Bool
  pub ctrl_down : Bool
  pub ext_prefix : Bool

-- The variables before the first key.
abbrev pub released : Keyboard
released = record { shift_down = false; ctrl_down = false; ext_prefix = false }

-- The byte for Ctrl and a letter; the other combinations are ignored.
abbrev pub ctrl_char : ℕ → Option ℕ
ctrl_char c =
    if leb b'a' c && leb c b'z'
    then some (c - b'a' + 1)
    else if leb b'A' c && leb c b'Z'
    then some (c - b'A' + 1)
    else none

-- The character of a key, 0 for none. A read outside the tables, which `key_char` rules out, is 255,
-- which is no character of theirs.
abbrev pub char_of : Keyboard → ℕ → ℕ
char_of kb code = if kb.shift_down then get_or sc_upper code 255 else get_or sc_lower code 255

-- What a key that is no modifier gives to the shell.
abbrev pub key_char : Keyboard → ℕ → Option ℕ
key_char kb code =
    let c = char_of kb code in
    if leb (length sc_lower) code
    then none
    else if c == 0
    then none
    else if kb.ctrl_down
    then ctrl_char c
    else some c

-- `keyboard_irq_handler` on the byte of the port, up to the call of `shell_update`.
pub scan_key : Keyboard → ℕ → Keyboard × Option ℕ
scan_key kb sc =
    let release = leb 0x80 sc in
    let code = sc % 0x80 in
    if sc == 0xe0
    then (record kb { ext_prefix = true }, none)
    else if kb.ext_prefix
    then (record kb { ext_prefix = false }, none)
    else if code == 0x2a || code == 0x36
    then (record kb { shift_down = not release }, none)
    else if code == 0x1d
    then (record kb { ctrl_down = not release }, none)
    else if release
    then (kb, none)
    else (kb, key_char kb code)

module _ {D : Type 0} (save : List User → D → D) (received : List ℕ) where
  abbrev pub pass_on : Shell D → Option ℕ → Option (Shell D × List Call)
  pass_on s none = some (s, [])
  pass_on s (some c) = shell_update save received s c

  pub keyboard_irq_handler : Keyboard → Shell D → ℕ → Option (Keyboard × Shell D × List Call)
  keyboard_irq_handler kb s sc = do
    (t, calls) ← pass_on s (scan_key kb sc).1
    some ((scan_key kb sc).0, t, calls)
