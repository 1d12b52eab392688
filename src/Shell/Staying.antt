-- ===== src/Shell/Staying.antt =====
-- kernel/shell.cpp: what holds of the states that keys lead to, and which keys write past no buffer.
use quillos.Prelude.{
  ℕ, ◌≡◌, refl, inl, inr, Bool, false, ◌||◌, some, List, arith, ◌==◌, if◌then◌else◌, Bool-cases,
  if_cases, if_both, length, ltb,
}
use quillos.Users.{User}
use quillos.Shell.Types.{Shell, Call}
use quillos.Shell.Commands.{Outcome}
use quillos.Shell.Lines.{is_empty}
use quillos.Shell.Editor.{backspace, is_printable, edit_update}
use quillos.Shell.{is_editing, line_update, shell_update}
use quillos.Shell.Safety.{IsValid}
use quillos.Shell.Keys.{Keyed, pressed, Keyed-IsValid}

-- The keys that end a line, and those that save a file in the editor.
abbrev pub is_ending : {D : Type 0} → Shell D → ℕ → Bool
is_ending s c = if is_editing s.mode then (c == 0x18) || (c == 0x13) else c == b'\n'

module _ {D : Type 0} where
  -- The outcome is a state.
  abbrev pub Returns : Outcome D → Type 0
  Returns o = (r : Shell D × List Call) × (o ≡ some r)

  edit_update-Returns :
      (s : Shell D) (c : ℕ) → ((c == 0x18) || (c == 0x13)) ≡ false → Returns (edit_update s c)
  unfolding edit_update
  edit_update-Returns s c h =
      if_cases Returns (c == 0x18) _ _ (λ e. absurd (ground (arith, e, h)))
        (λ e.
          if_cases Returns (c == 0x13) _ _ (λ e'. absurd (ground (arith, e', h)))
            (λ e'.
              if_both Returns (c == 0x11 || c == 0x03) _ _ (_, refl)
                (if_both Returns (c == backspace) _ _
                  (if_both Returns (is_empty s.edit_buf) _ _ (_, refl) (_, refl))
                  (if_both Returns (c == b'\n' || is_printable c) _ _
                    (if_both Returns (ltb (length s.edit_buf) 1023) _ _ (_, refl) (_, refl))
                    (_, refl)))))

  module _ (save : List User → D → D) where
    line_update-Returns :
        (received : List ℕ) (s : Shell D) (c : ℕ)
        → (c == b'\n') ≡ false
        → Returns (line_update save received s c)
    unfolding line_update
    line_update-Returns received s c h =
        if_both Returns (c == 0x03) _ _ (_, refl)
          (if_cases Returns (c == b'\n') _ _ (λ e. absurd (ground (arith, e, h)))
            (λ e.
              if_both Returns (c == backspace) _ _
                (if_both Returns (is_empty s.shell_buffer) _ _ (_, refl) (_, refl))
                (if_both Returns (is_printable c) _ _
                  (if_both Returns (ltb (length s.shell_buffer) 255) _ _ (_, refl) (_, refl))
                  (_, refl))))

    shell_update-Returns :
        (received : List ℕ) (s : Shell D) (c : ℕ)
        → is_ending s c ≡ false
        → Returns (shell_update save received s c)
    unfolding shell_update
    shell_update-Returns received s c h = elim (Bool-cases (is_editing s.mode)) [
      | inl e ↦ rw e (edit_update-Returns s c (rw e at h))
      | inr e ↦ rw e (line_update-Returns received s c (rw e at h))
    ]

    -- In every state that keys lead to from the first `shell_init` of which none has made the shell
    -- write past a buffer, each text fits its buffer with a null byte, `password_mode` is on exactly
    -- where a password is asked for, the current user behind the login is a slot of the table in
    -- use, the filesystem is one that its operations reach, and the clipboard's text lies inside its
    -- buffer. A further key that ends no line and saves no file writes past no buffer either, and
    -- leads to such a state again.
    pub Keyed-stays :
        {s : Shell D}
        → Keyed save s
        → IsValid s
          × ((received : List ℕ) (c : ℕ)
              → is_ending s c ≡ false
              → (r : Shell D × List Call) × (shell_update save received s c ≡ some r)
                × Keyed save r.0
                × IsValid r.0)
    Keyed-stays {s} keyed = (
      Keyed-IsValid save keyed,
      λ received c h.
          (let (r, e) = shell_update-Returns received s c h in
            let next : Keyed save r.0 = pressed received c keyed e in
            (r, e, next, Keyed-IsValid save next)),
    )
