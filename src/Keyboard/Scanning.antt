-- ===== src/Keyboard/Scanning.antt =====
-- kernel/keyboard.cpp: what the bytes for the shell are, and how a text is typed.
use quillos.Prelude.{
  ℕ, ◌+◌, ◌<◌, ◌≡◌, refl, ap, ◌∙◌, Bool, true, false, not, ◌&&◌, Option, none, some, List, [], ◌∷◌,
  ◌++◌, arith, Every, find_index, passes_below, passes_below_lem, ◌==◌, if◌then◌else◌,
}
use quillos.Shell.Editing.{is_text}
use quillos.Keyboard.{sc_lower, sc_upper, Keyboard, released, scan_key}

abbrev pub put : Option ℕ → List ℕ → List ℕ
put none cs = cs
put (some c) cs = c ∷ cs

-- The bytes that a sequence of scancodes gives to the shell.
unfoldable pub scan : Keyboard → List ℕ → Keyboard × List ℕ
scan kb [] = (kb, [])
scan kb (sc ∷ scs) =
    let rest = scan (scan_key kb sc).0 scs in (rest.0, put (scan_key kb sc).1 rest.1)

-- The scancodes of a key that is pressed and released, with Shift held where the character takes that.
abbrev with_shift : Option ℕ → List ℕ
with_shift none = []
with_shift (some code) = 0x2a ∷ code ∷ (code + 0x80) ∷ 0xaa ∷ []

abbrev without_shift : ℕ → Option ℕ → List ℕ
without_shift c none = with_shift (find_index (λ k. k == c) sc_upper)
without_shift c (some code) = code ∷ (code + 0x80) ∷ []

unfoldable pub codes : ℕ → List ℕ
codes c = without_shift c (find_index (λ k. k == c) sc_lower)

unfoldable pub codes_all : List ℕ → List ℕ
codes_all [] = []
codes_all (c ∷ cs) = codes c ++ codes_all cs

abbrev only : List ℕ → ℕ → Bool
only [] c = false
only (x ∷ []) c = x == c
only (x ∷ y ∷ ys) c = false

abbrev up : Keyboard → Bool
up kb = not kb.shift_down && not kb.ctrl_down && not kb.ext_prefix

abbrev types : ℕ → Bool
types c = let r = scan released (codes c) in if is_text c then up r.0 && only r.1 c else true

all_types : passes_below 127 types ≡ true
unfolding scan codes scan_key passes_below
all_types = refl

only_lem : (cs : List ℕ) (c : ℕ) → only cs c ≡ true → cs ≡ c ∷ []
only_lem [] c h = cc
only_lem (x ∷ []) c h = let e : x ≡ c = ground (arith, h) in ap (λ k. k ∷ []) e
only_lem (x ∷ y ∷ ys) c h = cc

up_lem : (kb : Keyboard) → up kb ≡ true → kb ≡ released
up_lem kb h =
    let shift : kb.shift_down ≡ false = ground (arith, h) in
    let ctrl : kb.ctrl_down ≡ false = ground (arith, h) in
    let ext : kb.ext_prefix ≡ false = ground (arith, h) in rw (shift, ctrl, ext) refl

scan-codes_one : (c : ℕ) → is_text c ≡ true → scan released (codes c) ≡ (released, c ∷ [])
scan-codes_one c h =
    let small : c < 127 = ground (arith, h) in
    let passed : types c ≡ true = passes_below_lem 127 c types small all_types in
    let r = scan released (codes c) in
    let both : (up r.0 && only r.1 c) ≡ true = rw h at passed in
    let kb = up_lem r.0 (ground (arith, both)) in
    let cs = only_lem r.1 c (ground (arith, both)) in
    ap (λ k. (k, r.1)) kb ∙ ap (λ l. (released, l)) cs

put-append : (o : Option ℕ) (xs ys : List ℕ) → put o (xs ++ ys) ≡ put o xs ++ ys
put-append none xs ys = refl
put-append (some c) xs ys = refl

scan-append :
    (kb : Keyboard) (xs ys : List ℕ)
    → scan kb (xs ++ ys)
      ≡ ((scan (scan kb xs).0 ys).0, (scan kb xs).1 ++ (scan (scan kb xs).0 ys).1)
unfolding scan
scan-append kb [] ys = refl
scan-append kb (sc ∷ xs) ys =
    let rest = scan-append (scan_key kb sc).0 xs ys in
    let q = scan (scan (scan_key kb sc).0 xs).0 ys in
    ap (λ (r : Keyboard × List ℕ). (r.0, put (scan_key kb sc).1 r.1)) rest
    ∙ ap (λ l. (q.0, l)) (put-append (scan_key kb sc).1 (scan (scan_key kb sc).0 xs).1 q.1)

scan_nothing : scan released [] ≡ (released, [])
unfolding scan
scan_nothing = refl

-- With no modifier held, the text of printable characters and line ends whose keys are pressed and
-- released one after the other, with Shift where a character takes it, is the text that the shell gets,
-- each character once; no modifier is held afterwards.
pub scan-codes_all :
    (text : List ℕ) → Every is_text text → scan released (codes_all text) ≡ (released, text)
unfolding codes_all
scan-codes_all [] p = scan_nothing
scan-codes_all (c ∷ cs) p =
    let one = scan-codes_one c p.0 in
    let rest = scan-codes_all cs p.1 in
    scan-append released (codes c) (codes_all cs)
    ∙ ap
        (λ (r : Keyboard × List ℕ).
          ((scan r.0 (codes_all cs)).0, r.1 ++ (scan r.0 (codes_all cs)).1))
        one
    ∙ ap (λ (r : Keyboard × List ℕ). (r.0, c ∷ r.1)) rest
