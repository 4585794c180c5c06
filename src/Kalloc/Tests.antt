-- ===== src/Kalloc/Tests.antt =====
-- Runs of the page allocator on a memory of three pages above a small kernel.
use ducko_unix.Prelude.{refl, [], ◌∷◌, true, false, arith, ℕ}
use ducko_unix.Kalloc.{Kmem, kalloc}
use ducko_unix.Kalloc.Pages.{IsDivided, Allocated, kalloc_lem}

abbrev kernel_end : ℕ
kernel_end = 2148532224

abbrev no_pages : Kmem
no_pages = record { use_lock = false; freelist = [] }

abbrev two_pages : Kmem
two_pages = record { use_lock = true; freelist = 2148536320 ∷ 2148540416 ∷ [] }

divided : IsDivided kernel_end two_pages (2148532224 ∷ [])
divided = record {
  free_pages = (refl, (refl, tt));
  held_pages = (refl, tt);
  once = λ v. ground arith;
}

kalloc_lem_example : Allocated kernel_end two_pages (2148532224 ∷ []) (kalloc two_pages)
kalloc_lem_example = kalloc_lem kernel_end two_pages (2148532224 ∷ []) divided
