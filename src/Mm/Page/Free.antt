-- ===== src/Mm/Page/Free.antt =====
-- `FreePages` and `Free` after `AllocPages`.
use info.Prelude.{
  ℕ, zero, suc, ◌+◌, ◌-◌, ◌*◌, ◌/◌, ◌%◌, ◌^◌, ◌≤◌, ◌<◌, ◌≡◌, refl, sym, ap, ◌∙◌, ◌⊎◌, inl, inr,
  true, false, ◌||◌, some, List, arith, ltb, leb, ◌==◌, lt→ltb, Bool-cases, length,
}
use info.Prelude.Bits.{marked}
use info.Mm.Page.{
  FrameMem, Page, page_size, page_free, identity_base, stamp, alloc_pages, release_pages,
  free_pages, free,
}
use info.Mm.Page.Counts.{unmark_run, unmark_run-outside, unmark_run-inside}
use info.Mm.Page.Laws.{IsFrame, Allocated, run_size, alloc_pages-some}

abbrev clear_run : ℕ → ℕ → List Page → List Page
clear_run zero i ps = ps
clear_run (suc n) i ps = clear_run n (i + 1) (stamp page_free 0 i ps)

release_pages_lem :
    (n i : ℕ) (f : FrameMem)
    → i + n ≤ f.total_pages
    → release_pages n i f
      ≡ record f { bitmap = unmark_run n i f.bitmap; pages = clear_run n i f.pages }
unfolding release_pages
release_pages_lem zero i f h = refl
release_pages_lem (suc n) i f h =
    let inside : ltb i f.total_pages ≡ true = lt→ltb _ _ (omega arith) in
    rw inside (release_pages_lem n (i + 1) _ (omega arith))

-- The guards of `FreePages` pass for page `s`.
free_pages-passed :
    (n s : ℕ) (g : FrameMem)
    → 0 < g.start_usable
    → 0 < n
    → s < g.total_pages
    → free_pages (g.start_usable + s * page_size) n g
      ≡ record (release_pages n s g) { free_pages = (g.free_pages + n) % 2 ^ 64 }
unfolding free_pages
free_pages-passed n s g a b c =
    let index : (g.start_usable + s * page_size - g.start_usable) / page_size ≡ s = omega arith in
    let some_pages : (g.start_usable + s * page_size == 0 || n == 0) ≡ false = ground arith in
    let above : ltb (g.start_usable + s * page_size) g.start_usable ≡ false = ground arith in
    let inside : leb g.total_pages s ≡ false = ground arith in
    rw (some_pages, above, index, inside) refl

-- The frames with a run of pages cleared and counted as free.
abbrev cleared : ℕ → ℕ → FrameMem → FrameMem
cleared m s g = record g {
  bitmap = unmark_run m s g.bitmap;
  pages = clear_run m s g.pages;
  free_pages = (g.free_pages + m) % 2 ^ 64;
}

used_split : (s m k : ℕ) → (s ≤ k × k < s + m) ⊎ ((k < s) ⊎ (s + m ≤ k))
used_split s m k = omega arith

-- On frames whose bitmap covers them, whose free count agrees with it and which end at 2 ^ 44 at
-- most, at an address other than 0, with a free count of 64 bits, FreePages of the physical
-- address of a run that AllocPages returned gives every bit and the free count their values
-- before.
pub free_pages-alloc_pages :
    (n : ℕ) (f : FrameMem) {a : ℕ} {g : FrameMem}
    → IsFrame f
    → 0 < f.start_usable
    → f.free_pages < 2 ^ 64
    → alloc_pages n f ≡ (some a, g)
    → let h = free_pages (a - identity_base) (run_size n) g in
      ((k : ℕ) → marked h.bitmap k ≡ marked f.bitmap k) × (h.free_pages ≡ f.free_pages)
free_pages-alloc_pages n f {a} {g} ok usable word e =
    let done : Allocated n f a g × IsFrame g = alloc_pages-some n f {a = a} {g = g} ok e in
    let m : ℕ = run_size n in
    let s : ℕ = done.0.start in
    let g_memory : g.total_pages ≡ f.total_pages = done.0.same_memory.0 in
    let g_start : g.start_usable ≡ f.start_usable = done.0.same_memory.1 in
    let fits : s + m ≤ g.total_pages = omega (arith, done.0.fits, g_memory) in
    let map_fits : g.total_pages ≤ length g.bitmap * 8 = done.1.map_fits in
    let here : a - identity_base ≡ g.start_usable + s * page_size =
      omega (arith, done.0.address, g_start) in
    let m_pos : 0 < m = ground arith in
    let freed : free_pages (a - identity_base) m g ≡ cleared m s g =
      ap (λ b. free_pages b m g) here
      ∙ free_pages-passed m s g (omega (arith, g_start)) m_pos (omega arith)
      ∙ ap (λ (h : FrameMem). record h { free_pages = (g.free_pages + m) % 2 ^ 64 })
          (release_pages_lem m s g fits) in
    (
      λ k. ap (λ (h : FrameMem). marked h.bitmap k) freed ∙ elim (used_split s m k) [
        | inl i ↦
            unmark_run-inside m s g.bitmap k (omega arith) i.0 i.1 ∙ sym (done.0.was_free k i.0 i.1)
        | inr o ↦ unmark_run-outside m s g.bitmap k (omega arith) o ∙ done.0.others k o
      ],
      ap (λ (h : FrameMem). h.free_pages) freed ∙ omega (arith, done.0.fewer),
    )

free_pages-outside :
    (a n : ℕ) (g : FrameMem) → g.start_usable + g.total_pages * page_size ≤ a → free_pages a n g ≡ g
unfolding free_pages
free_pages-outside a n g h = elim (Bool-cases (a == 0 || n == 0)) [
  | inl z ↦ rw z refl
  | inr z ↦ elim (Bool-cases (ltb a g.start_usable)) [
    | inl l ↦ rw (z, l) refl
    | inr l ↦
        let out : leb g.total_pages ((a - g.start_usable) / page_size) ≡ true = ground arith in
        rw (z, l, out) refl
  ]
]

-- On frames whose bitmap covers them, whose free count agrees with it and which end at 2 ^ 44 at
-- most, Free of the very address that AllocPages returned changes nothing, whatever memory
-- holds.
pub free-alloc_pages :
    (n : ℕ) (f : FrameMem) {a : ℕ} {g : FrameMem} (word : ℕ → ℕ)
    → IsFrame f
    → alloc_pages n f ≡ (some a, g)
    → free a word g ≡ g
unfolding free
free-alloc_pages n f {a} {g} word ok e =
    let done : Allocated n f a g × IsFrame g = alloc_pages-some n f {a = a} {g = g} ok e in
    let fits : g.start_usable + g.total_pages * page_size ≤ 2 ^ 44 = done.1.in_memory in
    let far : g.start_usable + g.total_pages * page_size ≤ a =
      omega (arith, fits, done.0.address) in
    elim (Bool-cases (a == 0)) [ inl z ↦ rw z refl | inr z ↦ rw z (free_pages-outside a _ g far) ]
