-- ===== src/Keyboard/Typing.antt =====
-- kernel/keyboard.cpp with shell.cpp: the interrupts of a typed line.
use quillos.Prelude.{
  ℕ, ◌<◌, ◌≡◌, refl, sym, ap, ◌∙◌, inl, inr, false, Option, none, some, List, [], ◌∷◌, ◌++◌, map,
  Every, Every-append, arith, length, ◌>>=◌, Option-cases,
}
use quillos.Users.{User}
use quillos.Shell.Types.{Shell, Call}
use quillos.Shell.Editor.{is_printable}
use quillos.Shell.{is_editing, echoed, handle_line}
use quillos.Shell.Typing.{press_keys, press_keys-line}
use quillos.Shell.Editing.{is_text}
use quillos.Keyboard.{Keyboard, released, scan_key, pass_on, keyboard_irq_handler}
use quillos.Keyboard.Scanning.{put, scan, codes_all, scan-codes_all}

module _ {D : Type 0} (save : List User → D → D) (received : List ℕ) where
  -- The next interrupts, and all that they call.
  unfoldable pub press_codes : Keyboard → Shell D → List ℕ → Option (Keyboard × Shell D × List Call)
  press_codes kb s [] = some (kb, s, [])
  press_codes kb s (sc ∷ scs) = do
    (kb', t, calls) ← keyboard_irq_handler save received kb s sc
    (kb'', u, more) ← press_codes kb' t scs
    some (kb'', u, calls ++ more)

  abbrev held : Keyboard → Option (Shell D × List Call) → Option (Keyboard × Shell D × List Call)
  held kb o = o >>= (λ r. some (kb, r.0, r.1))

  -- One key, and then the others.
  press_code :
      (kb : Keyboard) (s : Shell D) (sc : ℕ) (scs : List ℕ)
      → press_codes kb s (sc ∷ scs) ≡ (
          pass_on save received s (scan_key kb sc).1
          >>= (λ r. press_codes (scan_key kb sc).0 r.0 scs >>= (λ q. some (q.0, q.1, r.1 ++ q.2))))
  unfolding press_codes keyboard_irq_handler
  press_code kb s sc scs = elim (Option-cases (pass_on save received s (scan_key kb sc).1)) [
    | inl e ↦ rw e refl
    | inr (r, e) ↦ rw e refl
  ]

  -- What `press_keys` is, one key on.
  press_put :
      (s : Shell D) (o : Option ℕ) (cs : List ℕ)
      → press_keys save received s (put o cs) ≡ (
          pass_on save received s o
          >>= (λ r. press_keys save received r.0 cs >>= (λ q. some (q.0, r.1 ++ q.1))))
  unfolding press_keys
  press_put s none cs = elim (Option-cases (press_keys save received s cs)) [
    | inl e ↦ rw e refl
    | inr (r, e) ↦ rw e refl
  ]
  press_put s (some c) cs = refl

  held_on :
      (kb : Keyboard) (calls : List Call) (o : Option (Shell D × List Call))
      → (held kb o >>= (λ q. some (q.0, q.1, calls ++ q.2)))
        ≡ held kb (o >>= (λ q. some (q.0, calls ++ q.1)))
  held_on kb calls none = refl
  held_on kb calls (some (t, more)) = refl

  nothing :
      (kb : Keyboard) (s : Shell D) → press_codes kb s [] ≡ held kb (press_keys save received s [])
  unfolding press_codes press_keys
  nothing kb s = refl

  after :
      (k kk : Keyboard) (cs scs : List ℕ) (o : Option (Shell D × List Call))
      → ((t : Shell D) → press_codes k t scs ≡ held kk (press_keys save received t cs))
      → (o >>= (λ r. press_codes k r.0 scs >>= (λ q. some (q.0, q.1, r.1 ++ q.2))))
        ≡ held kk (o >>= (λ r. press_keys save received r.0 cs >>= (λ q. some (q.0, r.1 ++ q.1))))
  after k kk cs scs none h = refl
  after k kk cs scs (some (t, calls)) h =
      ap (λ o. o >>= (λ q. some (q.0, q.1, calls ++ q.2))) (h t)
      ∙ held_on kk calls (press_keys save received t cs)

  -- The interrupts for scancodes do what the keys do that these are scanned as.
  pub press_codes-scan :
      (kb : Keyboard) (s : Shell D) (scs : List ℕ)
      → press_codes kb s scs ≡ held (scan kb scs).0 (press_keys save received s (scan kb scs).1)
  unfolding scan
  press_codes-scan kb s [] = nothing kb s
  press_codes-scan kb s (sc ∷ scs) =
      let k = (scan_key kb sc).0 in
      let kk = (scan k scs).0 in
      let cs = (scan k scs).1 in
      let o = (scan_key kb sc).1 in
      press_code kb s sc scs
      ∙ after k kk cs scs (pass_on save received s o) (λ t. press_codes-scan k t scs)
      ∙ ap (held kk) (sym (press_put s o cs))

  printable_text : (line : List ℕ) → Every is_printable line → Every is_text line
  printable_text [] p = tt
  printable_text (c ∷ cs) p = (ground (arith, p.0), printable_text cs p.1)

  -- The presses and releases of the keys of a printable line of at most 255 bytes and of Enter, on a
  -- keyboard on which no modifier is held, at an empty prompt outside the editor, make the shell
  -- handle the line; no modifier is held afterwards.
  pub press_codes-line :
      (s t : Shell D) (line : List ℕ) (calls : List Call)
      → is_editing s.mode ≡ false
      → s.shell_buffer ≡ []
      → Every is_printable line
      → length line < 256
      → handle_line save received s s.mode line ≡ some (t, calls)
      → press_codes released s (codes_all (line ++ (b'\n' ∷ [])))
        ≡ some (released, t, map (echoed s) line ++ calls)
  press_codes-line s t line calls e empty p room handled =
      let text = line ++ (b'\n' ∷ []) in
      let all = Every-append is_text line (b'\n' ∷ []) (printable_text line p) (refl, tt) in
      let scanned = scan-codes_all text all in
      press_codes-scan released s (codes_all text)
      ∙ ap (λ (r : Keyboard × List ℕ). held r.0 (press_keys save received s r.1)) scanned
      ∙ ap (held released) (press_keys-line save received s t line calls e empty p room handled)
