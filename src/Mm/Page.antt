-- ===== src/Mm/Page.antt =====
-- mm/page.cc: the allocator of page frames, on the global `frame` of include/kernel/page.h.
-- Pointers are 64-bit words. The state and the tables of pages are below; what a page holds is not.
pub mod Runs
pub mod Counts
pub mod Laws
pub mod Free
mod Tests
use info.Prelude.{
  ℕ, subst, ap₂, zero, suc, ◌+◌, ◌-◌, ◌*◌, ◌/◌, ◌%◌, ◌^◌, ◌≤◌, ◌<◌, min, ◌≡◌, refl, sym, ap, ◌∙◌,
  ◌≢◌, ◌↔◌, ◌⊎◌, inl, inr, Bool, true, false, not, ◌&&◌, ◌||◌, Option, none, some, List, [], ◌∷◌,
  ◌++◌, map, append-nil, append_assoc, arith, add-zero, ltb, leb, ◌==◌, if◌then◌else◌, ltb→lt,
  lt→ltb, leb→le, ==_iff, tests, Bool-cases, Option-cases, length, get_elem?, set, length-append,
  length-set, get_elem?-set_self, get_elem?-set_ne, get_or, take, drop, replicate, take-append-drop,
  length-take, length-drop, length-replicate, length-map, take_all, drop_all, All, All-get_elem?,
  All-set, All-replicate, get_elem?-some,
}
use info.Prelude.Bits.{marked, mark, unmark}

-- `PAGE_SIZE`
abbrev pub page_size : ℕ
page_size = 4096

-- `IDENTITY_BASE`
abbrev pub identity_base : ℕ
identity_base = 0xfffff00000000000

-- `Page`
pub record Page : Type 0 where
  pub flag : ℕ
  pub vaddr : ℕ
  pub count : ℕ

-- `FrameMem`, but `start_addr` and `bitmap_size`, which these calls do not read.
pub record FrameMem : Type 0 where
  pub total_pages : ℕ
  pub free_pages : ℕ
  pub bitmap : List ℕ
  pub pages : List Page
  pub start_usable : ℕ

abbrev pub page_used : ℕ
page_used = 1

abbrev pub page_free : ℕ
page_free = 0

-- `Phy2Vir`
pub phy2vir : ℕ → ℕ
phy2vir phy = (phy + identity_base) % 2 ^ 64

-- The loop of `AllocPages` that looks for a used page in a run, from page `j` of it on, with the
-- pages that it has left: the first used one.
pub used_in_run : ℕ → ℕ → ℕ → List ℕ → Option ℕ
used_in_run zero start j bitmap = none
used_in_run (suc left) start j bitmap =
    let rest = used_in_run left start (j + 1) bitmap in
    if marked bitmap (start + j) then some j else rest

-- The loop of `AllocPages` over `start`, with a bound for its rounds: the first page of a free run.
pub find_run : ℕ → ℕ → ℕ → ℕ → List ℕ → Option ℕ
find_run zero n start total bitmap = none
find_run (suc rounds) n start total bitmap =
    if leb (start + n) total
    then elim (used_in_run n start 0 bitmap) [
      | none ↦ some start
      | some j ↦ find_run rounds n (start + j + 1) total bitmap
    ]
    else none

-- A page with its flag and its count written.
abbrev pub stamp : ℕ → ℕ → ℕ → List Page → List Page
stamp flag count i [] = []
stamp flag count zero (p ∷ ps) = record p { flag = flag; count = count } ∷ ps
stamp flag count (suc i) (p ∷ ps) = p ∷ stamp flag count i ps

-- The loop of `AllocPages` that takes the pages of a run.
pub take_pages : ℕ → ℕ → FrameMem → FrameMem
take_pages zero i f = f
take_pages (suc n) i f =
    take_pages n (i + 1)
      (record f { bitmap = mark f.bitmap i; pages = stamp page_used 1 i f.pages })

-- `AllocPages` for a number that is not 0; each round of the search starts later.
pub alloc_run : ℕ → FrameMem → Option ℕ × FrameMem
alloc_run n f =
    if ltb f.free_pages n
    then (none, f)
    else elim (find_run (suc f.total_pages) n 0 f.total_pages f.bitmap) [
      | none ↦ (none, f)
      | some start ↦ (
        some (phy2vir (f.start_usable + start * page_size)),
        record (take_pages n start f) { free_pages = f.free_pages - n },
      )
    ]

-- `AllocPages`; `none` is a null pointer.
pub alloc_pages : ℕ → FrameMem → Option ℕ × FrameMem
alloc_pages n f = alloc_run (if n == 0 then 1 else n) f

-- The loop of `FreePages`.
pub release_pages : ℕ → ℕ → FrameMem → FrameMem
release_pages zero i f = f
release_pages (suc n) i f =
    let rest =
      release_pages n (i + 1)
        (record f { bitmap = unmark f.bitmap i; pages = stamp page_free 0 i f.pages }) in
    if ltb i f.total_pages then rest else f

-- `FreePages`; a null pointer is 0.
pub free_pages : ℕ → ℕ → FrameMem → FrameMem
free_pages addr n f =
    if addr == 0 || n == 0
    then f
    else if ltb addr f.start_usable
    then f
    else if leb f.total_pages ((addr - f.start_usable) / page_size)
    then f
    else record (release_pages n ((addr - f.start_usable) / page_size) f) {
      free_pages = (f.free_pages + n) % 2 ^ 64;
    }

-- `Alloc`: the address, and the number of pages that it writes there.
pub alloc : ℕ → FrameMem → Option (ℕ × ℕ) × FrameMem
alloc size f =
    let total : ℕ = ((if size == 0 then 1 else size) + 8) % 2 ^ 64 in
    let pages : ℕ = (total + page_size - 1) % 2 ^ 64 / page_size in
    let (base, g) = alloc_pages pages f in
    elim base [ none ↦ (none, g) | some a ↦ (some (a, pages), g) ]

-- `Free`, where `word` is what a 64-bit word of memory holds.
pub free : ℕ → (word : ℕ → ℕ) → FrameMem → FrameMem
free addr word f =
    if addr == 0
    then f
    else free_pages addr (word (((addr + 2 ^ 64 - 8) % 2 ^ 64) / page_size * page_size)) f
