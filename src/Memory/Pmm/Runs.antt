-- ===== src/Memory/Pmm/Runs.antt =====
-- kernel/memory.cpp: the loops that release and reserve a run of pages.
use quillos.Prelude.{
  ℕ, zero, suc, ◌+◌, ◌≤◌, ◌<◌, ◌≡◌, refl, ap, ◌∙◌, inl, inr, Bool, true, false, not, ◌&&◌, ◌||◌,
  arith, ltb, leb, ◌==◌, Bool-cases, add64, sub64,
}
use quillos.Memory.Bitmap.{
  bmp_set, bmp_clear, bmp_test, bmp_test-set, bmp_test-clear, bmp_set-IsBitmap, bmp_clear-IsBitmap,
  count_used-set, count_used-clear, count_used-le,
}
use quillos.Memory.Pmm.{Pmm, release_run, reserve_page, reserve_run}
use quillos.Memory.Pmm.Allocation.{IsValid, is_used}

-- Page `q` is one of the `n` pages from `page` on.
abbrev pub in_run : ℕ → ℕ → ℕ → Bool
in_run page n q = leb page q && ltb q (page + n)

-- A run of used pages is released.
pub release_run_lem :
    (n page : ℕ) (s : Pmm)
    → IsValid s
    → page + n ≤ s.highest_page
    → ((q : ℕ) → in_run page n q ≡ true → is_used s q ≡ true)
    → IsValid (release_run n page s)
      × ((release_run n page s).highest_page ≡ s.highest_page)
      × ((q : ℕ) → is_used (release_run n page s) q ≡ (not (in_run page n q) && is_used s q))
unfolding release_run
release_run_lem zero page s v h u =
    (v, refl, λ q. let none_in : in_run page 0 q ≡ false = ground arith in rw none_in refl)
release_run_lem (suc n) page s v h u =
    let s1 = record s { bitmap = bmp_clear s.bitmap page; used = sub64 s.used 1 } in
    let hp : page < s.highest_page = omega arith in
    let was : is_used s page ≡ true = u page (ground arith) in
    let test = bmp_test-clear s.bitmap s.highest_page page v.bits hp in
    let v1 : IsValid s1 = record {
      bits = bmp_clear-IsBitmap s.bitmap s.highest_page page v.bits hp;
      counted = ground (
        arith,
        count_used-clear s.bitmap s.highest_page page v.bits hp,
        count_used-le s.bitmap s.highest_page,
        v.counted,
        v.small,
      );
      hint_in = v.hint_in;
      small = v.small;
    } in
    let ih = release_run_lem n (page + 1) s1 v1 (omega arith) (λ q i.
      let far : (page == q) ≡ false = ground arith in test q ∙ rw far (u q (ground arith))) in
    (ih.0, ih.1, λ q. ih.2 q ∙ ground (arith, test q))

-- One page is reserved, whether it was free or not.
reserve_page_lem :
    (s : Pmm) (page : ℕ)
    → IsValid s
    → page < s.highest_page
    → IsValid (reserve_page s page)
      × ((reserve_page s page).highest_page ≡ s.highest_page)
      × ((q : ℕ) → is_used (reserve_page s page) q ≡ ((page == q) || is_used s q))
reserve_page_lem s page v hp = elim (Bool-cases (bmp_test s.bitmap page)) [
  | inl t ↦
      let same : reserve_page s page ≡ s = rw t refl in
      rw same (
        v,
        refl,
        λ q. elim (Bool-cases (page == q)) [
          | inl x ↦ let x' : page ≡ q = ground arith in ground (arith, ap (bmp_test s.bitmap) x')
          | inr x ↦ rw x refl
        ],
      )
  | inr f ↦
      let s1 = record s { bitmap = bmp_set s.bitmap page; used = add64 s.used 1 } in
      let set_it : reserve_page s page ≡ s1 = rw f refl in
      rw set_it (
        record {
          bits = bmp_set-IsBitmap s.bitmap s.highest_page page v.bits hp;
          counted = ground (
            arith,
            count_used-set s.bitmap s.highest_page page v.bits hp,
            count_used-le s.bitmap s.highest_page,
            v.counted,
            v.small,
          );
          hint_in = v.hint_in;
          small = v.small;
        },
        refl,
        bmp_test-set s.bitmap s.highest_page page v.bits hp,
      )
]

-- A run of pages is reserved.
pub reserve_run_lem :
    (n page : ℕ) (s : Pmm)
    → IsValid s
    → page + n ≤ s.highest_page
    → IsValid (reserve_run n page s)
      × ((reserve_run n page s).highest_page ≡ s.highest_page)
      × ((q : ℕ) → is_used (reserve_run n page s) q ≡ (in_run page n q || is_used s q))
unfolding reserve_run
reserve_run_lem zero page s v h =
    (v, refl, λ q. let none_in : in_run page 0 q ≡ false = ground arith in rw none_in refl)
reserve_run_lem (suc n) page s v h =
    let one = reserve_page_lem s page v (omega arith) in
    let ih = reserve_run_lem n (page + 1) (reserve_page s page) one.0 (omega (arith, one.1)) in
    (ih.0, ih.1 ∙ one.1, λ q. ih.2 q ∙ rw (one.2 q) (ground arith))
