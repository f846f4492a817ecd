-- ===== src/Mm/Page/Counts.antt =====
-- Runs of pages marked in a bitmap, and the number of pages that are free.
use info.Prelude.{
  ℕ, ap₂, zero, suc, ◌+◌, ◌*◌, ◌≤◌, ◌<◌, ◌≡◌, refl, sym, ap, ◌∙◌, ◌⊎◌, inl, inr, true, false, List,
  arith, ◌==◌, if◌then◌else◌, Bool-cases, length,
}
use info.Prelude.Bits.{
  marked, mark, unmark, marked-mark_self, marked-mark_ne, marked-unmark_self, marked-unmark_ne,
  length-mark, length-unmark,
}
use info.Mm.Page.Runs.{FreeRun}

-- The pages below an index that are free, as a number.
unfoldable pub count_free : ℕ → List ℕ → ℕ
count_free zero bm = 0
count_free (suc k) bm = (if marked bm k then 0 else 1) + count_free k bm

count_free_ext :
    (k : ℕ) (bm other : List ℕ)
    → ((i : ℕ) → i < k → marked other i ≡ marked bm i)
    → count_free k other ≡ count_free k bm
unfolding count_free
count_free_ext zero bm other same = refl
count_free_ext (suc k) bm other same =
    ap₂ (λ b n. (if b then 0 else 1) + n) (same k (omega arith))
      (count_free_ext k bm other (λ i h. same i (omega arith)))

count_free-mark :
    (k i : ℕ) (bm : List ℕ)
    → i < k
    → k ≤ length bm * 8
    → marked bm i ≡ false
    → count_free k (mark bm i) + 1 ≡ count_free k bm
unfolding count_free
count_free-mark zero i bm h fits m = absurd (omega arith)
count_free-mark (suc k) i bm h fits m = elim (Bool-cases (i == k)) [
  | inl q ↦
      let same : i ≡ k = ground arith in
      let now : marked (mark bm i) k ≡ true =
        ap (marked (mark bm i)) (sym same) ∙ marked-mark_self bm i (omega arith) in
      let before : marked bm k ≡ false = ap (marked bm) (sym same) ∙ m in
      let rest =
        count_free_ext k bm (mark bm i)
          (λ j a. marked-mark_ne bm {i = i} {j = j} (omega arith) (λ e. omega arith)) in
      rw (now, before, rest) (omega arith)
  | inr q ↦
      let same = marked-mark_ne bm {i = i} {j = k} (omega arith) (λ e. absurd (ground arith)) in
      let rest = count_free-mark k i bm (ground arith) (omega arith) m in
      rw same (omega (arith, rest))
]

-- A run set, and a run cleared.
abbrev pub mark_run : ℕ → ℕ → List ℕ → List ℕ
mark_run zero i bm = bm
mark_run (suc n) i bm = mark_run n (i + 1) (mark bm i)

abbrev pub unmark_run : ℕ → ℕ → List ℕ → List ℕ
unmark_run zero i bm = bm
unmark_run (suc n) i bm = unmark_run n (i + 1) (unmark bm i)

pub length-mark_run : (n i : ℕ) (bm : List ℕ) → length (mark_run n i bm) ≡ length bm
length-mark_run zero i bm = refl
length-mark_run (suc n) i bm = length-mark_run n (i + 1) (mark bm i) ∙ length-mark bm i

pub mark_run-outside :
    (n i : ℕ) (bm : List ℕ) (k : ℕ)
    → i + n ≤ length bm * 8
    → (k < i) ⊎ (i + n ≤ k)
    → marked (mark_run n i bm) k ≡ marked bm k
mark_run-outside zero i bm k h out = refl
mark_run-outside (suc n) i bm k h out =
    mark_run-outside n (i + 1) (mark bm i) k (omega (arith, length-mark bm i))
      (elim out [ inl a ↦ inl (omega arith) | inr b ↦ inr (omega arith) ])
    ∙ marked-mark_ne bm {i = i} {j = k} (omega arith)
        (λ e. elim out [ inl a ↦ omega arith | inr b ↦ omega arith ])

pub mark_run-inside :
    (n i : ℕ) (bm : List ℕ) (k : ℕ)
    → i + n ≤ length bm * 8
    → i ≤ k
    → k < i + n
    → marked (mark_run n i bm) k ≡ true
mark_run-inside zero i bm k h a b = absurd (omega arith)
mark_run-inside (suc n) i bm k h a b =
    let fits : i + 1 + n ≤ length (mark bm i) * 8 = omega (arith, length-mark bm i) in
    elim (Bool-cases (k == i)) [
      | inl q ↦
          mark_run-outside n (i + 1) (mark bm i) k fits (inl (ground arith))
          ∙ ap (marked (mark bm i)) (ground arith)
          ∙ marked-mark_self bm i (omega arith)
      | inr q ↦ mark_run-inside n (i + 1) (mark bm i) k fits (ground arith) (omega arith)
    ]

pub count_free-mark_run :
    (n i total : ℕ) (bm : List ℕ)
    → i + n ≤ total
    → total ≤ length bm * 8
    → FreeRun bm i n
    → count_free total (mark_run n i bm) + n ≡ count_free total bm
count_free-mark_run zero i total bm h fits free_run = omega arith
count_free-mark_run (suc n) i total bm h fits free_run =
    let one =
      count_free-mark total i bm (omega arith) fits (free_run i (omega arith) (omega arith)) in
    let still : FreeRun (mark bm i) (i + 1) n = λ k a b.
      marked-mark_ne bm {i = i} {j = k} (omega arith) (λ e. omega arith)
      ∙ free_run k (omega arith) (omega arith) in
    let rest =
      count_free-mark_run n (i + 1) total (mark bm i) (omega arith)
        (omega (arith, length-mark bm i)) still in
    omega (arith, one, rest)

-- A bitmap with too few free pages has none to spare in any run.
pub few_free :
    (n i total : ℕ) (bm : List ℕ)
    → i + n ≤ total
    → total ≤ length bm * 8
    → FreeRun bm i n
    → n ≤ count_free total bm
few_free n i total bm h fits free_run =
    omega (arith, count_free-mark_run n i total bm h fits free_run)

pub unmark_run-outside :
    (n i : ℕ) (bm : List ℕ) (k : ℕ)
    → i + n ≤ length bm * 8
    → (k < i) ⊎ (i + n ≤ k)
    → marked (unmark_run n i bm) k ≡ marked bm k
unmark_run-outside zero i bm k h out = refl
unmark_run-outside (suc n) i bm k h out =
    unmark_run-outside n (i + 1) (unmark bm i) k (omega (arith, length-unmark bm i))
      (elim out [ inl a ↦ inl (omega arith) | inr b ↦ inr (omega arith) ])
    ∙ marked-unmark_ne bm {i = i} {j = k} (omega arith)
        (λ e. elim out [ inl a ↦ omega arith | inr b ↦ omega arith ])

pub unmark_run-inside :
    (n i : ℕ) (bm : List ℕ) (k : ℕ)
    → i + n ≤ length bm * 8
    → i ≤ k
    → k < i + n
    → marked (unmark_run n i bm) k ≡ false
unmark_run-inside zero i bm k h a b = absurd (omega arith)
unmark_run-inside (suc n) i bm k h a b =
    let fits : i + 1 + n ≤ length (unmark bm i) * 8 = omega (arith, length-unmark bm i) in
    elim (Bool-cases (k == i)) [
      | inl q ↦
          unmark_run-outside n (i + 1) (unmark bm i) k fits (inl (ground arith))
          ∙ ap (marked (unmark bm i)) (ground arith)
          ∙ marked-unmark_self bm i (omega arith)
      | inr q ↦ unmark_run-inside n (i + 1) (unmark bm i) k fits (ground arith) (omega arith)
    ]
