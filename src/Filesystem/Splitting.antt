-- ===== src/Filesystem/Splitting.antt =====
-- kernel/filesystem.cpp: what `normalize_path` and `split_path` make of a path, when they stay inside
-- their buffers, and that `full_path` of `rm` puts the two parts together again.

use quillos.Prelude.{
  ℕ, zero, suc, ◌+◌, ◌-◌, ◌≤◌, ◌<◌, ◌≡◌, ◌≢◌, refl, ap, sym, ◌∙◌, inl, inr, true, false, ◌&&◌,
  Option, none, some, List, [], ◌∷◌, ◌++◌, arith, length, get_or, take, drop, take_all, take-take,
  get_or-drop, get_or-out, length-drop, length-take, ltb, ◌==◌, Bool-cases, ◌>>=◌, >>=-eq-some,
  ltb→lt, ◌⊎◌, str_eq_refl, str_eq_sound,
}
use quillos.Filesystem.Types.{max_name_len, max_path_len}
use quillos.Filesystem.Paths.{
  slash, root, fs_strcmp, fs_strcpy, trim, normalize_path, last_slash, parent_part, name_part,
  split_path,
}
use quillos.Filesystem.{full_path}

-- There is no trailing slash to strip.
abbrev pub IsTrimmed : List ℕ → Type 0
IsTrimmed s = (ltb 1 (length s) && get_or s (length s - 1) 0 == slash) ≡ false

pub trim-take :
    (n : ℕ) (s : List ℕ)
    → n ≡ length s
    → (m : ℕ) × (m ≤ n) × (trim n s ≡ take m s) × IsTrimmed (trim n s)
unfolding trim
trim-take zero s e = (0, omega arith, sym (take_all zero s (omega arith)), ground (arith, e))
trim-take (suc n) s e = elim (Bool-cases (ltb 1 (suc n) && get_or s n 0 == slash)) [
  | inl more ↦
      let shorter = length-take n s in
      let r = trim-take n (take n s) (omega (arith, shorter, e)) in
      (r.0, omega (arith, r.1), rw more (r.2 ∙ take-take r.0 n s r.1), rw more r.3)
  | inr done ↦
      let at : suc n - 1 ≡ n = omega arith in
      let trimmed : IsTrimmed s = rw (← e, at) done in
      (suc n, omega arith, rw done (sym (take_all (suc n) s (omega arith))), rw done trimmed)
]

trim-fixed : (s : List ℕ) → IsTrimmed s → trim (length s) s ≡ s
unfolding trim
trim-fixed [] t = refl
trim-fixed (c ∷ cs) t =
    let at : suc (length cs) - 1 ≡ length cs = omega arith in
    let t' : (ltb 1 (suc (length cs)) && get_or (c ∷ cs) (length cs) 0 == slash) ≡ false =
      rw at at t in
    rw t' refl

-- A normalized path is trimmed, and normalizing it again changes nothing.
pub normalize_path-IsTrimmed :
    (path norm : List ℕ)
    → normalize_path path ≡ some norm
    → (length norm < max_path_len) × IsTrimmed norm × (normalize_path norm ≡ some norm)
unfolding normalize_path
normalize_path-IsTrimmed path norm e = elim (Bool-cases (ltb (length path) max_path_len)) [
  | inl fits ↦
      let is : trim (length path) path ≡ norm =
        let e' : some (trim (length path) path) ≡ some norm = rw fits at e in cc in
      let r = trim-take (length path) path refl in
      let t : IsTrimmed norm = rw is at r.3 in
      let short : length norm < max_path_len = omega (
        arith,
        ap length (sym is ∙ r.2),
        length-take r.0 path,
        ltb→lt (length path) max_path_len fits,
      ) in
      let fits' : ltb (length norm) max_path_len ≡ true = ground arith in
      (short, t, rw (fits', trim-fixed norm t) refl)
  | inr long ↦ let e' : none ≡ some norm = rw long at e in cc
]

-- A path that is too long for the buffer is written past its end.
pub normalize_path-long : (path : List ℕ) → max_path_len ≤ length path → normalize_path path ≡ none
unfolding normalize_path
normalize_path-long path h =
    let long : ltb (length path) max_path_len ≡ false = ground arith in rw long refl

pub normalize_path-short :
    (path : List ℕ)
    → length path < max_path_len
    → normalize_path path ≡ some (trim (length path) path)
unfolding normalize_path
normalize_path-short path h =
    let short : ltb (length path) max_path_len ≡ true = ground arith in rw short refl

below :
    (s : List ℕ) (n i : ℕ)
    → (get_or s n 0 == slash) ≡ false
    → i < suc n
    → (i < n → (get_or s i 0 == slash) ≡ false)
    → (get_or s i 0 == slash) ≡ false
below s n i miss h f = elim (Bool-cases (i == n)) [
  | inl e ↦ let e' : i ≡ n = ground arith in rw e' miss
  | inr e ↦ f (ground arith)
]

-- What the backward search for a slash says of the first `n` bytes.
pub last_slash_lem :
    (n : ℕ) (s : List ℕ)
    → ((last_slash n s ≡ none) × ((i : ℕ) → i < n → (get_or s i 0 == slash) ≡ false))
      ⊎ ((l : ℕ) × (last_slash n s ≡ some l)
          × (l < n)
          × ((get_or s l 0 == slash) ≡ true)
          × ((i : ℕ) → l < i → i < n → (get_or s i 0 == slash) ≡ false))
unfolding last_slash
last_slash_lem zero s = inl (refl, λ i h. absurd (omega arith))
last_slash_lem (suc n) s = elim (Bool-cases (get_or s n 0 == slash)) [
  | inl hit ↦ inr (n, rw hit refl, omega arith, hit, λ i h h'. absurd (omega arith))
  | inr miss ↦ elim (last_slash_lem n s) [
    | inl (e, f) ↦ inl (rw miss e, λ i h. below s n i miss h (f i))
    | inr (l, e, h, hit, f) ↦
        inr (l, rw miss e, omega arith, hit, λ i a b. below s n i miss b (f i a))
  ]
]

name_fits : (s n : List ℕ) → fs_strcpy max_name_len s ≡ some n → length n < max_name_len
name_fits s n e = elim (Bool-cases (ltb (length s) max_name_len)) [
  | inl h ↦
      let same : s ≡ n = let e' : some s ≡ some n = rw h at e in cc in rw (← same) (ground arith)
  | inr h ↦ let e' : none ≡ some n = rw h at e in cc
]

parent_fits :
    (path norm : List ℕ) (last : Option ℕ)
    → normalize_path path ≡ some norm
    → length (parent_part last path) < max_path_len
unfolding normalize_path
parent_fits path norm none e = omega arith
parent_fits path norm (some zero) e = omega arith
parent_fits path norm (some (suc l)) e = elim (Bool-cases (ltb (length path) max_path_len)) [
  | inl h ↦ omega (arith, length-take (suc l) path, ltb→lt (length path) max_path_len h)
  | inr h ↦ let e' : none ≡ some norm = rw h at e in cc
]

-- The parts of a path that is split fit their buffers.
pub split_path-fits :
    (path p n : List ℕ)
    → split_path path ≡ some (p, n)
    → (length p < max_path_len) × (length n < max_name_len)
unfolding split_path
split_path-fits path p n e =
    let r = >>=-eq-some (normalize_path path) _ (p, n) e in
    let last = last_slash (length r.0) r.0 in
    let q = >>=-eq-some (fs_strcpy max_name_len (name_part last r.0)) _ (p, n) r.2 in
    let ep : parent_part last path ≡ p = cc (q.2) in
    let en : q.0 ≡ n = cc (q.2) in
    (rw (← ep) (parent_fits path r.0 last r.1), rw (← en) (name_fits (name_part last r.0) q.0 q.1))

-- A text is what stands before one of its bytes, that byte, and what stands behind it.
take-drop :
    (k : ℕ) (s : List ℕ) (c : ℕ)
    → k < length s
    → get_or s k 0 ≡ c
    → take k s ++ (c ∷ drop (k + 1) s) ≡ s
take-drop k [] c h e = absurd (omega arith)
take-drop zero (x ∷ xs) c h e = rw e refl
take-drop (suc k) (x ∷ xs) c h e =
    let shift : suc k + 1 ≡ suc (k + 1) = omega arith in
    rw shift (ap (◌∷◌ x) (take-drop k xs c (omega arith) e))

pair_parts :
    (a b p n : List ℕ)
    → ◌≡◌ {A = Option (List ℕ × List ℕ)} (some (a, b)) (some (p, n))
    → (a ≡ p) × (b ≡ n)
pair_parts a b p n e = (cc, cc)

absurd_pair :
    {A : Type 0} (p n : List ℕ) → ◌≡◌ {A = Option (List ℕ × List ℕ)} none (some (p, n)) → A
absurd_pair p n e = cc

no_slash_behind :
    (path : List ℕ) (l : ℕ)
    → ((i : ℕ) → l < i → i < length path → (get_or path i 0 == slash) ≡ false)
    → (i : ℕ) → i < length (drop (l + 1) path)
    → get_or (drop (l + 1) path) i 0 ≢ slash
no_slash_behind path l after i h e =
    let at = get_or-drop (l + 1) i path 0 in
    let wide = length-drop (l + 1) path in
    let miss = after (l + 1 + i) (omega arith) (omega (arith, wide)) in
    absurd (ground (arith, miss, at, e))

-- What a split that stays inside its buffers gives of a path that is trimmed and fits.
pub split_path-parts :
    (path p n : List ℕ)
    → normalize_path path ≡ some path
    → split_path path ≡ some (p, n)
    → (parent_part (last_slash (length path) path) path ≡ p)
      × (name_part (last_slash (length path) path) path ≡ n)
unfolding split_path
split_path-parts path p n same e =
    let last = last_slash (length path) path in
    let e' : (fs_strcpy max_name_len (name_part last path)
          >>= (λ n. some (parent_part last path, n)))
        ≡ some (p, n) =
      rw same at e in
    elim (Bool-cases (ltb (length (name_part last path)) max_name_len)) [
      | inl h ↦ pair_parts (parent_part last path) (name_part last path) p n (rw h at e')
      | inr h ↦ absurd_pair p n (rw h at e')
    ]

-- For a normalized absolute path that does not begin with two slashes, the path that `rm` builds
-- from the parts is the path, and the name has no slash.
pub full_path-split_path :
    (path p n : List ℕ)
    → normalize_path path ≡ some path
    → split_path path ≡ some (p, n)
    → get_or path 0 0 ≡ slash
    → get_or path 1 0 ≢ slash
    → (full_path p n ≡ path) × ((i : ℕ) → i < length n → get_or n i 0 ≢ slash)
full_path-split_path path p n same e abs second =
    let parts = split_path-parts path p n same e in
    let last = last_slash (length path) path in
    elim (last_slash_lem (length path) path) [
      | inl (_, no_slash) ↦
          let empty = no_slash 0 in
          let blank : length path ≡ 0 = ground (arith, empty, abs) in
          let zero_byte = get_or-out path 0 0 (omega arith) in
          absurd (omega (arith, zero_byte, abs))
      | inr (zero, e', h, hit, after) ↦
          let ep : root ≡ p = rw e' at parts.0 in
          let en : drop 1 path ≡ n = rw e' at parts.1 in
          let whole : slash ∷ drop 1 path ≡ path = take-drop 0 path slash h abs in
          let is_root : fs_strcmp root root ≡ true = str_eq_refl root in
          let joined : full_path root (drop 1 path) ≡ path = rw is_root whole in
          (rw (← ep, ← en) joined, rw (← en) (no_slash_behind path 0 after))
      | inr (suc l, e', h, hit, after) ↦
          let ep : take (suc l) path ≡ p = rw e' at parts.0 in
          let en : drop (suc l + 1) path ≡ n = rw e' at parts.1 in
          let whole = take-drop (suc l) path slash h (ground arith) in
          let not_root : fs_strcmp (take (suc l) path) root ≡ false =
            elim (Bool-cases (fs_strcmp (take (suc l) path) root)) [
              | inl is_root ↦
                  let alike = ap length (str_eq_sound (take (suc l) path) root is_root) in
                  let first : l ≡ 0 = omega (arith, alike, length-take (suc l) path) in
                  let hit' : (get_or path (suc 0) 0 == slash) ≡ true = rw first at hit in
                  absurd (second (ground (arith, hit')))
              | inr other ↦ other
            ] in
          let joined : full_path (take (suc l) path) (drop (suc l + 1) path) ≡ path =
            rw not_root whole in
          (rw (← ep, ← en) joined, rw (← en) (no_slash_behind path (suc l) after))
    ]
