-- ===== src/Keyboard/Bounds.antt =====
-- kernel/keyboard.cpp: which bytes reach the shell.
use quillos.Prelude.{
  ℕ, ◌+◌, ◌-◌, ◌%◌, ◌≤◌, ◌<◌, ◌≡◌, refl, true, ◌&&◌, ◌||◌, Option, none, some, arith, get_or, leb,
  ltb, ◌==◌, if_cases, if_both, passes_below, passes_below_lem, some_eq,
}
use quillos.Keyboard.{sc_lower, sc_upper, Keyboard, ctrl_char, char_of, key_char, scan_key}

-- A byte for the shell, with the modifier as it is.
abbrev pub IsKey : Keyboard → ℕ → Type 0
IsKey kb c = (1 ≤ c) × (c < 127) × (kb.ctrl_down ≡ true → c ≤ 26)

abbrev Gives : Keyboard → Option ℕ → Type 0
Gives kb o = (c : ℕ) → o ≡ some c → IsKey kb c

none-Gives : (kb : Keyboard) → Gives kb none
none-Gives kb c e = cc

lower_ascii : passes_below 58 (λ i. ltb (get_or sc_lower i 255) 127) ≡ true
unfolding passes_below
lower_ascii = refl

upper_ascii : passes_below 58 (λ i. ltb (get_or sc_upper i 255) 127) ≡ true
unfolding passes_below
upper_ascii = refl

char_of-ascii : (kb : Keyboard) (code : ℕ) → code < 58 → char_of kb code < 127
char_of-ascii kb code h =
    let low = passes_below_lem 58 code (λ i. ltb (get_or sc_lower i 255) 127) h lower_ascii in
    let upp = passes_below_lem 58 code (λ i. ltb (get_or sc_upper i 255) 127) h upper_ascii in
    if_both (λ c. c < 127) kb.shift_down (get_or sc_upper code 255) (get_or sc_lower code 255)
      (ground (arith, upp)) (ground (arith, low))

abbrev IsControl : Option ℕ → Type 0
IsControl o = (d : ℕ) → o ≡ some d → (1 ≤ d) × (d ≤ 26)

ctrl_char-IsControl : (c : ℕ) → IsControl (ctrl_char c)
ctrl_char-IsControl c =
    if_cases IsControl (leb b'a' c && leb c b'z') _ _
      (λ h d e.
        (let s : c - b'a' + 1 ≡ d = some_eq e in (ground (arith, h, s), ground (arith, h, s))))
      (λ g.
        if_cases IsControl (leb b'A' c && leb c b'Z') _ _
          (λ h d e.
            (let s : c - b'A' + 1 ≡ d = some_eq e in (ground (arith, h, s), ground (arith, h, s))))
          (λ h d e. cc))

key_char-Gives : (kb : Keyboard) (code : ℕ) → Gives kb (key_char kb code)
key_char-Gives kb code =
    if_cases (Gives kb) (leb 58 code) _ _ (λ h. none-Gives kb)
      (λ inside.
        if_cases (Gives kb) (char_of kb code == 0) _ _ (λ h. none-Gives kb)
          (λ some_char.
            if_cases (Gives kb) kb.ctrl_down _ _
              (λ held c e.
                (let b = ctrl_char-IsControl (char_of kb code) c e in
                  (b.0, omega (arith, b.1), λ h. b.1)))
              (λ free c e.
                (let s : char_of kb code ≡ c = some_eq e in
                  let small = char_of-ascii kb code (ground (arith, inside)) in
                  let big : 1 ≤ char_of kb code = ground (arith, some_char) in
                  rw (← s) (big, small, λ h. absurd (ground (arith, h, free)))))))

scan_key-Gives : (kb : Keyboard) (sc : ℕ) → Gives kb (scan_key kb sc).1
unfolding scan_key
scan_key-Gives kb sc =
    let P : Keyboard × Option ℕ → Type 0 = λ r. Gives kb r.1 in
    let none_given = none-Gives kb in
    if_both P (sc == 0xe0) _ _ none_given (
      if_both P kb.ext_prefix _ _ none_given (
        if_both P (sc % 0x80 == 0x2a || sc % 0x80 == 0x36) _ _ none_given (
          if_both P (sc % 0x80 == 0x1d) _ _ none_given
            (if_both P (leb 0x80 sc) _ _ none_given (key_char-Gives kb (sc % 0x80))))))

-- Each byte that an interrupt of the keyboard hands to the shell is an ASCII character other than null
-- and DEL, and with Ctrl held one of the 26 control characters of the letters.
pub scan_key-bounds : (kb : Keyboard) (sc c : ℕ) → (scan_key kb sc).1 ≡ some c → IsKey kb c
scan_key-bounds kb sc c e = scan_key-Gives kb sc c e
