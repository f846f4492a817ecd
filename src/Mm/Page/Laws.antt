-- ===== src/Mm/Page/Laws.antt =====
-- What `AllocPages` returns and leaves, and what `FreePages` makes of it.
use info.Prelude.{
  ℕ, subst, zero, suc, ◌+◌, ◌-◌, ◌*◌, ◌^◌, ◌≤◌, ◌<◌, ◌≡◌, refl, sym, ap, ◌∙◌, ◌⊎◌, inl, inr, true,
  false, Option, none, some, List, arith, ltb, ◌==◌, if◌then◌else◌, ltb→lt, Bool-cases,
  Option-cases, length,
}
use info.Prelude.Bits.{marked}
use mathlib.Core.Option.{some-injective}
use info.Mm.Page.{
  FrameMem, Page, page_size, page_used, identity_base, phy2vir, stamp, take_pages, find_run,
  alloc_run, alloc_pages,
}
use info.Mm.Page.Runs.{FreeRun, UsedRun, find_run-some, find_run-none, Found, used_or_free}
use info.Mm.Page.Counts.{
  count_free, count_free-mark_run, few_free, mark_run, length-mark_run, mark_run-outside,
  mark_run-inside,
}

-- The bitmap and the number of free pages agree, and the pages lie in the 2 ^ 44 bytes of memory that
-- have an address above `identity_base`.
pub record IsFrame (f : FrameMem) : Type 0 where
  pub map_fits : f.total_pages ≤ length f.bitmap * 8
  pub counted : f.free_pages ≡ count_free f.total_pages f.bitmap
  pub in_memory : f.start_usable + f.total_pages * page_size ≤ 2 ^ 44

-- The number of pages that `AllocPages` takes.
abbrev pub run_size : ℕ → ℕ
run_size n = if n == 0 then 1 else n

abbrev stamp_run : ℕ → ℕ → List Page → List Page
stamp_run zero i ps = ps
stamp_run (suc n) i ps = stamp_run n (i + 1) (stamp page_used 1 i ps)

take_pages_lem :
    (n i : ℕ) (f : FrameMem)
    → take_pages n i f ≡ record f { bitmap = mark_run n i f.bitmap; pages = stamp_run n i f.pages }
unfolding take_pages
take_pages_lem zero i f = refl
take_pages_lem (suc n) i f = take_pages_lem n (i + 1) _

-- What a call that returned `a` and left `g` did to `f`.
pub record Allocated (n : ℕ) (f : FrameMem) (a : ℕ) (g : FrameMem) : Type 0 where
  pub start : ℕ
  pub address : a ≡ identity_base + f.start_usable + start * page_size
  pub fits : start + run_size n ≤ f.total_pages
  pub was_free : FreeRun f.bitmap start (run_size n)
  pub first : (t : ℕ) → t < start → UsedRun f.bitmap t (run_size n)
  pub now_used : (k : ℕ) → start ≤ k → k < start + run_size n → marked g.bitmap k ≡ true
  pub others :
      (k : ℕ) → (k < start) ⊎ (start + run_size n ≤ k) → marked g.bitmap k ≡ marked f.bitmap k
  pub fewer : g.free_pages + run_size n ≡ f.free_pages
  pub same_memory : (g.total_pages ≡ f.total_pages) × (g.start_usable ≡ f.start_usable)

-- The result of a search that found a run.
abbrev taken : ℕ → ℕ → FrameMem → FrameMem
taken n start f = record (take_pages n start f) { free_pages = f.free_pages - n }

alloc_run-found :
    (n : ℕ) (f : FrameMem) {s : ℕ}
    → ltb f.free_pages n ≡ false
    → find_run (suc f.total_pages) n 0 f.total_pages f.bitmap ≡ some s
    → alloc_run n f ≡ (some (phy2vir (f.start_usable + s * page_size)), taken n s f)
unfolding alloc_run
alloc_run-found n f l e = rw (l, e) refl

alloc_run-full : (n : ℕ) (f : FrameMem) → ltb f.free_pages n ≡ true → alloc_run n f ≡ (none, f)
unfolding alloc_run
alloc_run-full n f l = rw l refl

alloc_run-none :
    (n : ℕ) (f : FrameMem)
    → find_run (suc f.total_pages) n 0 f.total_pages f.bitmap ≡ none
    → alloc_run n f ≡ (none, f)
unfolding alloc_run
alloc_run-none n f e = elim (Bool-cases (ltb f.free_pages n)) [
  | inl l ↦ rw l refl
  | inr l ↦ rw (l, e) refl
]

phy2vir_lem : (p : ℕ) → p < 2 ^ 44 → phy2vir p ≡ identity_base + p
unfolding phy2vir
phy2vir_lem p h = omega arith

alloc_run-Allocated :
    (n : ℕ) (f : FrameMem) {s : ℕ}
    → IsFrame f
    → 0 < run_size n
    → ltb f.free_pages (run_size n) ≡ false
    → Found f.bitmap (run_size n) 0 f.total_pages s
    → Allocated n f (phy2vir (f.start_usable + s * page_size)) (taken (run_size n) s f)
alloc_run-Allocated n f {s} ok pos_size l found =
    let m : ℕ = run_size n in
    let fits : s + m ≤ f.total_pages = found.fits in
    let map_fits : f.total_pages ≤ length f.bitmap * 8 = ok.map_fits in
    record {
      start = s;
      address =
          phy2vir_lem (f.start_usable + s * page_size) (omega (arith, ok.in_memory)) ∙ omega arith;
      fits = fits;
      was_free = found.is_free;
      first = λ t b. found.first t (omega arith) b;
      now_used = λ k a b.
          ap (λ (g : FrameMem). marked g.bitmap k) (take_pages_lem m s f)
          ∙ mark_run-inside m s f.bitmap k (omega arith) a b;
      others = λ k out.
          ap (λ (g : FrameMem). marked g.bitmap k) (take_pages_lem m s f)
          ∙ mark_run-outside m s f.bitmap k (omega arith) out;
      fewer = ground arith;
      same_memory = (
        ap (λ (g : FrameMem). g.total_pages) (take_pages_lem m s f),
        ap (λ (g : FrameMem). g.start_usable) (take_pages_lem m s f),
      );
    }

taken-IsFrame :
    (n : ℕ) (f : FrameMem) {s : ℕ}
    → IsFrame f
    → s + n ≤ f.total_pages
    → FreeRun f.bitmap s n
    → IsFrame (taken n s f)
taken-IsFrame n f {s} ok fits free_run =
    let out = count_free-mark_run n s f.total_pages f.bitmap fits ok.map_fits free_run in
    subst (λ (g : FrameMem). IsFrame (record g { free_pages = f.free_pages - n }))
      (sym (take_pages_lem n s f))
      (record {
        map_fits = omega (arith, ok.map_fits, length-mark_run n s f.bitmap);
        counted = omega (arith, ok.counted, out);
        in_memory = ok.in_memory;
      })

none-some : {a : ℕ} {f g : FrameMem} → ◌≡◌ {A = Option ℕ × FrameMem} (none, f) (some a, g) → ⊥
none-some e = cc (ap (λ (p : Option ℕ × FrameMem). p.0) e)

outcome_subst :
    (P : ℕ → FrameMem → Type 0) {a b : ℕ} {f g : FrameMem}
    → ◌≡◌ {A = Option ℕ × FrameMem} (some a, f) (some b, g)
    → P a f
    → P b g
outcome_subst P {a} {b} {f} {g} e x =
    subst (P b) (ap (λ (p : Option ℕ × FrameMem). p.1) e)
      (subst (λ c. P c f) (some-injective a b (ap (λ (p : Option ℕ × FrameMem). p.0) e)) x)

-- On frames whose bitmap covers them, whose free count agrees with it and which end at 2 ^ 44 at
-- most, a run that AllocPages returns (of one page for 0) was free, is now used, and is the
-- first free one, although the search skips; every other page keeps its bit, the free count goes
-- down by the size, the address is that of the first page, and these conditions still hold.
pub alloc_pages-some :
    (n : ℕ) (f : FrameMem) {a : ℕ} {g : FrameMem}
    → IsFrame f
    → alloc_pages n f ≡ (some a, g)
    → Allocated n f a g × IsFrame g
unfolding alloc_pages
alloc_pages-some n f {a} {g} ok e =
    let m : ℕ = run_size n in
    let call : alloc_run m f ≡ (some a, g) = e in
    elim (Bool-cases (ltb f.free_pages m)) [
      | inl l ↦ absurd (none-some (sym (alloc_run-full m f l) ∙ call))
      | inr l ↦ elim (Option-cases (find_run (suc f.total_pages) m 0 f.total_pages f.bitmap)) [
        | inl u ↦ absurd (none-some (sym (alloc_run-none m f u) ∙ call))
        | inr u ↦
            let found =
              find_run-some (suc f.total_pages) m 0 f.total_pages f.bitmap {s = u.0} u.1 in
            let same = sym (alloc_run-found m f {s = u.0} l u.1) ∙ call in
            outcome_subst (λ b h. Allocated n f b h × IsFrame h) same
              (
                alloc_run-Allocated n f {s = u.0} ok (ground arith) l found,
                taken-IsFrame m f {s = u.0} ok found.fits found.is_free,
              )
      ]
    ]

-- On frames whose bitmap covers them, whose free count agrees with it and which end at 2 ^ 44 at
-- most, AllocPages that returns null changes nothing, and every run of the size has a used page.
pub alloc_pages-none :
    (n : ℕ) (f : FrameMem) {g : FrameMem}
    → IsFrame f
    → alloc_pages n f ≡ (none, g)
    → (g ≡ f) × ((t : ℕ) → t + run_size n ≤ f.total_pages → UsedRun f.bitmap t (run_size n))
unfolding alloc_pages
alloc_pages-none n f {g} ok e =
    let m : ℕ = run_size n in
    let call : alloc_run m f ≡ (none, g) = e in
    elim (Bool-cases (ltb f.free_pages m)) [
      | inl l ↦ (
        ap (λ (p : Option ℕ × FrameMem). p.1) (sym call ∙ alloc_run-full m f l),
        λ t fits. elim (used_or_free m t f.bitmap) [
          | inl u ↦ u
          | inr free_run ↦
              let enough = few_free m t f.total_pages f.bitmap fits ok.map_fits free_run in
              let too_few : f.free_pages < m = ltb→lt _ _ l in
              absurd (omega (arith, enough, ok.counted))
        ],
      )
      | inr l ↦ elim (Option-cases (find_run (suc f.total_pages) m 0 f.total_pages f.bitmap)) [
        | inl u ↦ (
          ap (λ (p : Option ℕ × FrameMem). p.1) (sym call ∙ alloc_run-none m f u),
          λ t fits.
              find_run-none (suc f.total_pages) m 0 f.total_pages f.bitmap (omega arith) u t
                (omega arith) fits,
        )
        | inr u ↦ absurd (none-some (sym call ∙ alloc_run-found m f {s = u.0} l u.1))
      ]
    ]
