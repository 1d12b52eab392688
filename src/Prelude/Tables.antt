-- ===== src/Prelude/Tables.antt =====
-- The loops over a fixed table that the kernel's components share: the first entry that passes a
-- test, an update of one entry, and a pass over all entries.
use Prim.Native.Nat.{ℕ, zero, suc, ◌+◌, ◌<◌}
use mathlib.Core.Path.{◌≡◌, refl, sym, ap, ◌∙◌}
use mathlib.Core.Logic.{◌≢◌, ◌⊎◌, inl, inr}
use mathlib.Core.Bool.{Bool, true, false}
use mathlib.Core.List.{List, [], ◌∷◌, map}
use mathlib.Core.Option
use mathlib.Core.Option.{Option, none, some}
use native.Mathlib.Omega.{arith}
use quillos.Prelude.Tests.{◌==◌, if◌then◌else◌, Bool-cases, Option-cases}
use quillos.Prelude.Lists.{length, get_or, set, get_or-set, length-set}

module _ {ℓ} {A : Type ℓ} where
  -- `for (i = 0; i < N; i++) if (p(t[i])) return i; return -1;`
  abbrev pub find_index : (A → Bool) → List A → Option ℕ
  find_index p [] = none
  find_index p (x ∷ xs) = if p x then some 0 else Option.map suc (find_index p xs)

  -- `t[i] = f(t[i])`, with a default for an index out of range, which is written nowhere.
  abbrev pub modify : A → List A → ℕ → (A → A) → List A
  modify d xs i f = set xs i (f (get_or xs i d))

  -- `for (i = k; ...; i++) t[i] = f(i, t[i]);`
  abbrev pub map_from : ℕ → (ℕ → A → A) → List A → List A
  map_from k f [] = []
  map_from k f (x ∷ xs) = f k x ∷ map_from (suc k) f xs

module _ {ℓ} {A : Type ℓ} where
  pub length-modify :
      (d : A) (xs : List A) (i : ℕ) (f : A → A) → length (modify d xs i f) ≡ length xs
  length-modify d xs i f = length-set xs i (f (get_or xs i d))

  pub get_or-modify :
      (d : A) (xs : List A) (i j : ℕ) (f : A → A)
      → i < length xs
      → get_or (modify d xs i f) j d ≡ (if i == j then f (get_or xs i d) else get_or xs j d)
  get_or-modify d xs i j f h = ground (arith, get_or-set xs i j (f (get_or xs i d)) d)

  pub length-map_from : (k : ℕ) (f : ℕ → A → A) (xs : List A) → length (map_from k f xs) ≡ length xs
  length-map_from k f [] = refl
  length-map_from k f (x ∷ xs) = ap suc (length-map_from (suc k) f xs)

  pub get_or-map_from :
      (k : ℕ) (f : ℕ → A → A) (xs : List A) (i : ℕ) (d : A)
      → i < length xs
      → get_or (map_from k f xs) i d ≡ f (k + i) (get_or xs i d)
  get_or-map_from k f [] i d h = absurd (omega arith)
  get_or-map_from k f (x ∷ xs) zero d h = ap (λ n. f n x) (omega arith)
  get_or-map_from k f (x ∷ xs) (suc i) d h =
      let shift : suc k + i ≡ k + suc i = omega arith in
      rw (get_or-map_from (suc k) f xs i d (omega arith)) (ap (λ n. f n (get_or xs i d)) shift)

  -- What a search that succeeds says: the entry is in range, passes, and none before it does.
  pub find_index-some :
      (p : A → Bool) (xs : List A) (i : ℕ) (d : A)
      → find_index p xs ≡ some i
      → (i < length xs) × (p (get_or xs i d) ≡ true)
  find_index-some p [] i d e = cc
  find_index-some p (x ∷ xs) i d e = elim (Bool-cases (p x)) [
    | inl hit ↦ let z : 0 ≡ i = ground (arith, e) in rw (← z) (omega arith, hit)
    | inr miss ↦ elim (Option-cases (find_index p xs)) [
      | inl n ↦ absurd (ground (arith, e))
      | inr (j, f) ↦
          let z : suc j ≡ i = ground (arith, e) in
          let rest = find_index-some p xs j d f in rw (← z) (omega arith, rest.1)
    ]
  ]

  pub find_index-first :
      (p : A → Bool) (xs : List A) (i j : ℕ) (d : A)
      → find_index p xs ≡ some i
      → j < i
      → p (get_or xs j d) ≡ false
  find_index-first p [] i j d e h = cc
  find_index-first p (x ∷ xs) i zero d e h = elim (Bool-cases (p x)) [
    | inl hit ↦ absurd (ground arith)
    | inr miss ↦ miss
  ]
  find_index-first p (x ∷ xs) i (suc j) d e h = elim (Bool-cases (p x)) [
    | inl hit ↦ absurd (ground arith)
    | inr miss ↦ elim (Option-cases (find_index p xs)) [
      | inl n ↦ absurd (ground (arith, e))
      | inr (k, f) ↦
          let z : suc k ≡ i = ground (arith, e) in find_index-first p xs k j d f (omega arith)
    ]
  ]

  -- What a search that fails says: no entry passes.
  pub find_index-none :
      (p : A → Bool) (xs : List A) (i : ℕ) (d : A)
      → find_index p xs ≡ none
      → i < length xs
      → p (get_or xs i d) ≡ false
  find_index-none p [] i d e h = absurd (omega arith)
  find_index-none p (x ∷ xs) zero d e h = ground arith
  find_index-none p (x ∷ xs) (suc i) d e h = elim (Option-cases (find_index p xs)) [
    | inl n ↦ find_index-none p xs i d n (omega arith)
    | inr (k, f) ↦ absurd (ground arith)
  ]

  -- A search that fails before a write finds the written entry after it, if that passes.
  pub find_index-put :
      (p : A → Bool) (xs : List A) (i : ℕ) (d : A) (f : A → A)
      → i < length xs
      → find_index p xs ≡ none
      → p (f (get_or xs i d)) ≡ true
      → find_index p (modify d xs i f) ≡ some i
  find_index-put p xs i d f h e hit =
      let ys = modify d xs i f in
      let wide = length-modify d xs i f in
      elim (Option-cases (find_index p ys)) [
        | inl nothing ↦
            let miss = find_index-none p ys i d nothing (omega (arith, wide)) in
            let itself : (i == i) ≡ true = ground arith in
            let at : get_or ys i d ≡ f (get_or xs i d) =
              get_or-modify d xs i i f h ∙ rw itself refl in
            let now = ap p at in absurd (ground (arith, now, miss, hit))
        | inr (j, found) ↦ elim (Bool-cases (i == j)) [
          | inl e' ↦ found ∙ ap some (ground arith)
          | inr ne ↦
              let ok = find_index-some p ys j d found in
              let at : get_or ys j d ≡ get_or xs j d = get_or-modify d xs i j f h ∙ rw ne refl in
              let miss = find_index-none p xs j d e (omega (arith, ok.0, wide)) in
              let same = ap p at in absurd (ground (arith, same, miss, ok.1))
        ]
      ]

  -- It still fails after the write, if the written entry does not pass.
  pub find_index-put_miss :
      (p : A → Bool) (xs : List A) (i : ℕ) (d : A) (f : A → A)
      → i < length xs
      → find_index p xs ≡ none
      → p (f (get_or xs i d)) ≡ false
      → find_index p (modify d xs i f) ≡ none
  find_index-put_miss p xs i d f h e miss =
      let ys = modify d xs i f in
      let wide = length-modify d xs i f in
      elim (Option-cases (find_index p ys)) [
        | inl nothing ↦ nothing
        | inr (j, found) ↦
            let ok = find_index-some p ys j d found in
            let read = get_or-modify d xs i j f h in
            elim (Bool-cases (i == j)) [
              | inl e' ↦
                  let at : get_or ys j d ≡ f (get_or xs i d) = read ∙ rw e' refl in
                  let now = ap p at in absurd (ground (arith, now, ok.1, miss))
              | inr ne ↦
                  let at : get_or ys j d ≡ get_or xs j d = read ∙ rw ne refl in
                  let old = find_index-none p xs j d e (omega (arith, ok.0, wide)) in
                  let now = ap p at in absurd (ground (arith, now, ok.1, old))
            ]
      ]

  -- A write that changes no entry's outcome moves no search.
  pub find_index-same :
      (p : A → Bool) (xs : List A) (i : ℕ) (v d : A)
      → p (get_or xs i d) ≡ p v
      → find_index p (set xs i v) ≡ find_index p xs
  find_index-same p [] i v d h = refl
  find_index-same p (x ∷ xs) zero v d h = rw h refl
  find_index-same p (x ∷ xs) (suc i) v d h =
      ap (λ o. if p x then some 0 else Option.map suc o) (find_index-same p xs i v d h)

  -- `map` with a function that keeps the default.
  pub get_or-map :
      (f : A → A) (xs : List A) (i : ℕ) (d : A)
      → f d ≡ d
      → get_or (map f xs) i d ≡ f (get_or xs i d)
  get_or-map f [] i d h = sym h
  get_or-map f (x ∷ xs) zero d h = refl
  get_or-map f (x ∷ xs) (suc i) d h = get_or-map f xs i d h

  pub length-map : (f : A → A) (xs : List A) → length (map f xs) ≡ length xs
  length-map f [] = refl
  length-map f (x ∷ xs) = ap suc (length-map f xs)

  -- Reading after a write: the written entry or another one.
  pub modify-cases :
      (d : A) (xs : List A) (i j : ℕ) (f : A → A)
      → i < length xs
      → (j ≡ i) × (get_or (modify d xs i f) j d ≡ f (get_or xs i d))
        ⊎ (j ≢ i) × (get_or (modify d xs i f) j d ≡ get_or xs j d)
  modify-cases d xs i j f h =
      let read = get_or-modify d xs i j f h in
      elim (Bool-cases (i == j)) [
        | inl e ↦ inl (ground (arith, e), read ∙ rw e refl)
        | inr ne ↦ inr (λ z. absurd (ground (arith, ne, z)), read ∙ rw ne refl)
      ]

  -- What `f` keeps of an entry, a write by `f` keeps of every entry.
  pub modify-keeps {κ} :
      (P : A → Type κ) (d : A) (xs : List A) (i j : ℕ) (f : A → A)
      → ((x : A) → P x → P (f x))
      → P (get_or xs j d)
      → P (get_or (modify d xs i f) j d)
  modify-keeps P d [] i j f keep h = h
  modify-keeps P d (x ∷ xs) zero zero f keep h = keep x h
  modify-keeps P d (x ∷ xs) zero (suc j) f keep h = h
  modify-keeps P d (x ∷ xs) (suc i) zero f keep h = h
  modify-keeps P d (x ∷ xs) (suc i) (suc j) f keep h = modify-keeps P d xs i j f keep h
