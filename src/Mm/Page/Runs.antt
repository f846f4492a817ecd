-- ===== src/Mm/Page/Runs.antt =====
-- Runs of pages in a bitmap: what the search finds, and how many pages are free.
use info.Prelude.{
  ℕ, subst, zero, suc, ◌+◌, ◌≤◌, ◌<◌, ◌≡◌, refl, sym, ap, ◌∙◌, ◌⊎◌, inl, inr, true, false, none,
  some, List, arith, ltb, leb, ◌==◌, ltb→lt, leb→le, Bool-cases, Option-cases,
}
use info.Prelude.Bits.{marked}
use info.Mm.Page.{used_in_run, find_run}

-- Every page of the run is free.
abbrev pub FreeRun : List ℕ → ℕ → ℕ → Type 0
FreeRun bitmap start n = (k : ℕ) → start ≤ k → k < start + n → marked bitmap k ≡ false

-- Some page of the run is used.
pub record UsedRun (bitmap : List ℕ) (start n : ℕ) : Type 0 where
  pub page : ℕ
  pub from : start ≤ page
  pub below : page < start + n
  pub used : marked bitmap page ≡ true

used_in_run-some :
    (left start j : ℕ) (bm : List ℕ) {k : ℕ}
    → used_in_run left start j bm ≡ some k
    → (k < j + left) × (marked bm (start + k) ≡ true)
unfolding used_in_run
used_in_run-some zero start j bm e = absurd (cc e)
used_in_run-some (suc left) start j bm {k} e = elim (Bool-cases (marked bm (start + j))) [
  | inl m ↦ ground (arith, used_in_run-some left start (j + 1) bm {k = k})
  | inr m ↦
      let out = used_in_run-some left start (j + 1) bm {k = k} (ground (arith, m, e)) in
      (omega (arith, out.0), out.1)
]

used_in_run-none :
    (left start j : ℕ) (bm : List ℕ)
    → used_in_run left start j bm ≡ none
    → FreeRun bm (start + j) left
unfolding used_in_run
used_in_run-none zero start j bm e k a b = absurd (omega arith)
used_in_run-none (suc left) start j bm e k a b = elim (Bool-cases (marked bm (start + j))) [
  | inl m ↦ absurd (ground (arith, m, e))
  | inr m ↦ elim (Bool-cases (k == start + j)) [
    | inl q ↦ ap (marked bm) (ground arith) ∙ m
    | inr q ↦
        used_in_run-none left start (j + 1) bm (ground (arith, m, e)) k (ground arith)
          (ground arith)
  ]
]

-- The search skips no free run: every earlier start is of a run with a used page.
pub record Found (bm : List ℕ) (n from total s : ℕ) : Type 0 where
  pub later : from ≤ s
  pub fits : s + n ≤ total
  pub is_free : FreeRun bm s n
  pub first : (t : ℕ) → from ≤ t → t < s → UsedRun bm t n

-- The used page that ends a round is in every run that the round skips.
skipped :
    (n start j : ℕ) (bm : List ℕ)
    → used_in_run n start 0 bm ≡ some j
    → (t : ℕ) → start ≤ t
    → t < start + j + 1
    → UsedRun bm t n
skipped n start j bm e t a b =
    let out = used_in_run-some n start 0 bm {k = j} e in
    let below : j < n = omega (arith, out.0) in
    record { page = start + j; from = omega arith; below = omega arith; used = out.1 }

find_run-found :
    (rounds n start total : ℕ) (bm : List ℕ)
    → leb (start + n) total ≡ true
    → used_in_run n start 0 bm ≡ none
    → find_run (suc rounds) n start total bm ≡ some start
unfolding find_run
find_run-found rounds n start total bm l u = rw (l, u) refl

find_run-skipped :
    (rounds n start total : ℕ) (bm : List ℕ) {j : ℕ}
    → leb (start + n) total ≡ true
    → used_in_run n start 0 bm ≡ some j
    → find_run (suc rounds) n start total bm ≡ find_run rounds n (start + j + 1) total bm
unfolding find_run
find_run-skipped rounds n start total bm l u = rw (l, u) refl

find_run-end :
    (rounds n start total : ℕ) (bm : List ℕ)
    → leb (start + n) total ≡ false
    → find_run (suc rounds) n start total bm ≡ none
unfolding find_run
find_run-end rounds n start total bm l = rw l refl

pub find_run-some :
    (rounds n start total : ℕ) (bm : List ℕ) {s : ℕ}
    → find_run rounds n start total bm ≡ some s
    → Found bm n start total s
unfolding find_run
find_run-some zero n start total bm e = absurd (cc e)
find_run-some (suc rounds) n start total bm {s} e = elim (Bool-cases (leb (start + n) total)) [
  | inl l ↦ elim (Option-cases (used_in_run n start 0 bm)) [
    | inl u ↦
        let same : start ≡ s = cc (e, find_run-found rounds n start total bm l u) in
        subst (Found bm n start total) same (record {
          later = omega arith;
          fits = leb→le _ _ l;
          is_free = λ k a b. used_in_run-none n start 0 bm u k (omega arith) (omega arith);
          first = λ t a b. absurd (omega arith);
        })
    | inr u ↦
        let out =
          find_run-some rounds n (start + u.0 + 1) total bm {s = s}
            (sym (find_run-skipped rounds n start total bm {j = u.0} l u.1) ∙ e) in
        record {
          later = omega (arith, out.later);
          fits = out.fits;
          is_free = out.is_free;
          first = λ t a b. elim (Bool-cases (ltb t (start + u.0 + 1))) [
            | inl q ↦ skipped n start u.0 bm u.1 t a (ltb→lt _ _ q)
            | inr q ↦ out.first t (ground arith) b
          ];
        }
  ]
  | inr l ↦ absurd (cc (e, find_run-end rounds n start total bm l))
]

-- With more rounds than there are starts, the search fails only if there is no free run.
pub find_run-none :
    (rounds n start total : ℕ) (bm : List ℕ)
    → total < start + rounds
    → find_run rounds n start total bm ≡ none
    → (t : ℕ) → start ≤ t
    → t + n ≤ total
    → UsedRun bm t n
unfolding find_run
find_run-none zero n start total bm h e t a b = absurd (omega arith)
find_run-none (suc rounds) n start total bm h e t a b =
    let l : leb (start + n) total ≡ true = ground arith in
    elim (Option-cases (used_in_run n start 0 bm)) [
      | inl u ↦ absurd (cc (e, find_run-found rounds n start total bm l u))
      | inr u ↦ elim (Bool-cases (ltb t (start + u.0 + 1))) [
        | inl q ↦ skipped n start u.0 bm u.1 t a (ltb→lt _ _ q)
        | inr q ↦
            find_run-none rounds n (start + u.0 + 1) total bm (omega arith)
              (sym (find_run-skipped rounds n start total bm {j = u.0} l u.1) ∙ e) t (ground arith)
              b
      ]
    ]

pub used_or_free : (n start : ℕ) (bm : List ℕ) → UsedRun bm start n ⊎ FreeRun bm start n
used_or_free n start bm = elim (Option-cases (used_in_run n start 0 bm)) [
  | inl u ↦ inr (λ k a b. used_in_run-none n start 0 bm u k (omega arith) (omega arith))
  | inr u ↦ inl (skipped n start u.0 bm u.1 start (omega arith) (omega arith))
]
