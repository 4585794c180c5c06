-- ===== src/Vm/Entries.antt =====
-- The entries of page tables (vm.c), and the pages that they hold.
use ducko_unix.Prelude.{
  ℕ, ◌+◌, ◌*◌, ◌/◌, ◌%◌, ◌<◌, ◌≤◌, ◌≡◌, ◌≢◌, refl, Bool, true, List, [], ◌∷◌, if◌then◌else◌, none,
  some, arith, inl, inr, ◌⊎◌,
}
use ducko_unix.Kalloc.{page_size, kernbase, Kmem, kalloc}
use ducko_unix.Kalloc.Pages.{count}
use ducko_unix.Vm.{Vm, word, v2p, pdx, ptx, present, table}

-- The entry of a virtual address, 0 where there is no table for it.
abbrev pub pte : Vm → ℕ → ℕ → ℕ
pte s pgdir va =
    if present (s.words pgdir (pdx va))
    then s.words (table (s.words pgdir (pdx va))) (ptx va)
    else 0

abbrev pub has_table : Vm → ℕ → ℕ → Bool
has_table s pgdir i = present (s.words pgdir i)

abbrev pub table_of : Vm → ℕ → ℕ → ℕ
table_of s pgdir i = table (s.words pgdir i)

-- The directory and its tables are different pages and none of them is free; the free pages are
-- pages of the kernel, each one free once.
pub record IsTables (s : Vm) (pgdir : ℕ) : Type 0 where
  pub no_loop : (i : ℕ) → i < 1024 → has_table s pgdir i ≡ true → table_of s pgdir i ≢ pgdir
  pub apart :
      (i j : ℕ)
      → i < 1024
      → j < 1024
      → has_table s pgdir i ≡ true
      → has_table s pgdir j ≡ true
      → table_of s pgdir i ≡ table_of s pgdir j
      → i ≡ j
  pub pages :
      (v : ℕ) → 0 < count v s.kmem.freelist → (v % page_size ≡ 0) × (kernbase ≤ v) × (v < word)
  pub once : (v : ℕ) → count v s.kmem.freelist ≤ 1
  pub dir_held : count pgdir s.kmem.freelist ≡ 0
  pub tables_held :
      (i : ℕ)
      → i < 1024
      → has_table s pgdir i ≡ true
      → count (table_of s pgdir i) s.kmem.freelist ≡ 0

pub kalloc-cases :
    (k : Kmem)
    → ((k.freelist ≡ []) × (kalloc k ≡ (none, k)))
      ⊎ ((t : ℕ) × (rest : List ℕ) × (k.freelist ≡ t ∷ rest)
          × (kalloc k ≡ (some t, record k { freelist = rest })))
unfolding kalloc
kalloc-cases k = free_cases k.use_lock k.freelist
  where
    free_cases :
        (u : Bool) (free : List ℕ)
        → ((free ≡ [])
            × (kalloc (record { use_lock = u; freelist = free })
                ≡ (none, record { use_lock = u; freelist = free })))
          ⊎ ((t : ℕ) × (rest : List ℕ) × (free ≡ t ∷ rest)
              × (kalloc (record { use_lock = u; freelist = free })
                  ≡ (some t, record { use_lock = u; freelist = rest })))
    free_cases u [] = inl (refl, refl)
    free_cases u (t ∷ rest) = inr (t, rest, refl, refl)

pub entry_present : (t perm : ℕ) → t % page_size ≡ 0 → present (v2p t + (perm / 2 * 2 + 1)) ≡ true
entry_present t perm whole = ground arith

pub table-entry : (t : ℕ) → t % page_size ≡ 0 → kernbase ≤ t → t < word → table (v2p t + 7) ≡ t
table-entry t whole lo hi = omega arith
