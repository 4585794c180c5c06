-- ===== src/Kalloc.antt =====
-- kalloc.c: the allocator of physical pages, as a list of the addresses of the free pages in the
-- order of `kmem.freelist`. Addresses are 32-bit.
pub mod Pages
mod Tests
use ducko_unix.Prelude.{
  ℕ, zero, suc, ◌+◌, ◌-◌, ◌*◌, ◌/◌, ◌%◌, ltb, leb, ◌==◌, Bool, true, false, ◌||◌, not, List, [],
  ◌∷◌, if◌then◌else◌, Outcome, done, panic, ◌>>=◌, Option, none, some,
}

abbrev pub page_size : ℕ
page_size = 4096

abbrev pub kernbase : ℕ
kernbase = 2147483648

abbrev pub phystop : ℕ
phystop = 234881024

pub record Kmem : Type 0 where
  pub use_lock : Bool
  pub freelist : List ℕ

-- The address that the test of `kfree` accepts; `kernel_end` is `end`, where the linker puts it.
abbrev pub is_page : ℕ → ℕ → Bool
is_page kernel_end v = not (
    not (v % page_size == 0)
    || ltb v kernel_end
    || leb phystop ((v + 4294967296 - kernbase) % 4294967296))

unfoldable pub kfree : ℕ → ℕ → Kmem → Outcome Kmem
kfree kernel_end v s =
    if is_page kernel_end v then done (record s { freelist = v ∷ s.freelist }) else panic

unfoldable pub kalloc : Kmem → Option ℕ × Kmem
kalloc s = elim s.freelist [ [] ↦ (none, s) | r ∷ rest ↦ (some r, record s { freelist = rest }) ]

abbrev pub page_round_up : ℕ → ℕ
page_round_up v = (v + 4095) / page_size * page_size

-- The loop of `freerange`; each turn moves up by a page, and `vend` turns are enough.
unfoldable pub free_pages : ℕ → ℕ → ℕ → ℕ → Kmem → Outcome Kmem
unfolding kfree
free_pages kernel_end zero p vend s = done s
free_pages kernel_end (suc fuel) p vend s =
    if leb (p + page_size) vend
    then (kfree kernel_end p s >>= λ s. free_pages kernel_end fuel (p + page_size) vend s)
    else done s

unfoldable pub freerange : ℕ → ℕ → ℕ → Kmem → Outcome Kmem
unfolding free_pages
freerange kernel_end vstart vend s =
    free_pages kernel_end (suc (vend / page_size)) (page_round_up vstart) vend s

unfoldable pub kinit1 : ℕ → ℕ → ℕ → Kmem → Outcome Kmem
unfolding freerange
kinit1 kernel_end vstart vend s = freerange kernel_end vstart vend (record s { use_lock = false })

unfoldable pub kinit2 : ℕ → ℕ → ℕ → Kmem → Outcome Kmem
unfolding freerange
kinit2 kernel_end vstart vend s =
    freerange kernel_end vstart vend s >>= λ s. done (record s { use_lock = true })
