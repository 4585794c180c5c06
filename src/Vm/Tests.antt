-- ===== src/Vm/Tests.antt =====
-- Mapping two pages into the sample address space, and taking its page away (vm.c).
use ducko_unix.Prelude.{◌≡◌, done, arith, ap, inl, inr}
use ducko_unix.Kalloc.{page_round_up}
use ducko_unix.Vm.{Vm, present, page_round_down, mappages, deallocuvm}
use ducko_unix.Vm.Map.{Mapping, AllAbsent, pages, mappages_lem}
use ducko_unix.Vm.Unmapped.{IsUnmapped}
use ducko_unix.Vm.Dealloc.{deallocuvm_lem}
use ducko_unix.Vm.Sample.{dir, small, small-IsTables, pte-cases, small-IsSpace}

two_absent : AllAbsent small dir 8192 2
two_absent x lo hi = elim (pte-cases x) [
  | inl (_, d, i) ↦ absurd (omega (arith, lo, hi, d, i))
  | inr none_here ↦ ap (λ e. present e) none_here
]

mappages_lem_example :
    Mapping small dir
      (page_round_down 8192)
      (pages 8192 5000)
      8392704
      6
      (mappages dir 8192 5000 8392704 6 small)
mappages_lem_example =
    mappages_lem small dir 8192 5000 8392704 6 small-IsTables (omega arith) (omega arith)
      (omega arith) (omega arith) (omega arith) two_absent

deallocuvm_lem_example :
    (t : Vm) × (deallocuvm 2148532224 dir 8192 1000 small ≡ done (1000, t))
    × IsUnmapped 2148532224 small t dir (page_round_up 1000) (page_round_up 8192)
deallocuvm_lem_example =
    deallocuvm_lem 2148532224 small dir 8192 1000 small-IsSpace (omega arith) (omega arith)
