-- ===== src/Mm/Page/Tests.antt =====
-- Runs of the page allocator at concrete inputs.
use info.Prelude.{ℕ, ◌+◌, ◌-◌, ◌≤◌, ◌≡◌, refl, none, some, [], ◌∷◌, arith, replicate}
use info.Prelude.Bits.{marked, bit}
use info.Mm.Page.{
  FrameMem, identity_base, alloc_pages, free_pages, free, alloc, phy2vir, used_in_run, find_run,
  alloc_run,
}
use info.Mm.Page.Runs.{UsedRun}
use info.Mm.Page.Counts.{count_free}
use info.Mm.Page.Laws.{IsFrame, Allocated, run_size, alloc_pages-some, alloc_pages-none}
use info.Mm.Page.Free.{free_pages-alloc_pages, free-alloc_pages}

-- Ten pages at 1 MB, of which pages 0, 1 and 3 are used.
abbrev ten_pages : FrameMem
ten_pages = record {
  total_pages = 10;
  free_pages = 7;
  bitmap = 11 ∷ 0 ∷ [];
  pages = replicate 10 (record { flag = 0; vaddr = 0; count = 0 });
  start_usable = 0x100000;
}

ten_pages-IsFrame : IsFrame ten_pages
unfolding count_free marked bit
ten_pages-IsFrame = record { map_fits = omega arith; counted = refl; in_memory = omega arith }

-- The run of four pages that a call takes.
abbrev left : FrameMem
left = (alloc_pages 4 ten_pages).1

alloc_pages_run : alloc_pages 4 ten_pages ≡ (some 0xfffff00000104000, left)
unfolding alloc_pages alloc_run find_run used_in_run marked bit phy2vir
alloc_pages_run = refl

alloc_pages_full : alloc_pages 8 ten_pages ≡ (none, ten_pages)
unfolding alloc_pages alloc_run
alloc_pages_full = refl

alloc_pages-some_example : Allocated 4 ten_pages 0xfffff00000104000 left × IsFrame left
alloc_pages-some_example =
    alloc_pages-some 4 ten_pages {a = 0xfffff00000104000} {g = left} ten_pages-IsFrame
      alloc_pages_run

alloc_pages-none_example :
    (ten_pages ≡ ten_pages)
    × ((t : ℕ) → t + run_size 8 ≤ ten_pages.total_pages → UsedRun ten_pages.bitmap t (run_size 8))
alloc_pages-none_example =
    alloc_pages-none 8 ten_pages {g = ten_pages} ten_pages-IsFrame alloc_pages_full

free_pages-alloc_pages_example :
    let h = free_pages (0xfffff00000104000 - identity_base) (run_size 4) left in
    ((k : ℕ) → marked h.bitmap k ≡ marked ten_pages.bitmap k)
    × (h.free_pages ≡ ten_pages.free_pages)
free_pages-alloc_pages_example =
    free_pages-alloc_pages 4 ten_pages {a = 0xfffff00000104000} {g = left} ten_pages-IsFrame
      (omega arith) (omega arith) alloc_pages_run

free-alloc_pages_example : free 0xfffff00000104000 (λ a. 4) left ≡ left
free-alloc_pages_example =
    free-alloc_pages 4 ten_pages {a = 0xfffff00000104000} {g = left} (λ a. 4) ten_pages-IsFrame
      alloc_pages_run

alloc_size : (alloc 5000 ten_pages).0 ≡ some (0xfffff00000104000, 2)
unfolding alloc alloc_pages alloc_run find_run used_in_run marked bit phy2vir
alloc_size = refl
