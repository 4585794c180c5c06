-- ===== src/Vm.antt =====
-- vm.c: page tables of two levels. A page is named by its virtual address in the kernel, and
-- `words` gives its 1024 words; a page table is the address of its directory. Physical addresses
-- that go into an entry are page aligned, so that `|` with the flags is a sum.
pub mod Entries
pub mod Walk
pub mod Store
pub mod Map
pub mod Space
pub mod Unmapped
pub mod Dealloc
pub mod Sample
mod Tests
use ducko_unix.Prelude.{
  ℕ, zero, suc, ◌+◌, ◌-◌, ◌*◌, ◌/◌, ◌%◌, ltb, leb, ◌==◌, Bool, true, false, ◌&&◌, ◌||◌, not, List,
  [], ◌∷◌, if◌then◌else◌, update, Outcome, done, panic, ◌>>=◌, Option, none, some,
}
use ducko_unix.Kalloc.{page_size, kernbase, phystop, Kmem, kfree, kalloc, page_round_up}

pub record Vm : Type 0 where
  pub kmem : Kmem
  pub words : ℕ → ℕ → ℕ

abbrev pub word : ℕ
word = 4294967296

-- V2P and P2V.
abbrev pub v2p : ℕ → ℕ
v2p a = (a + word - kernbase) % word

abbrev pub p2v : ℕ → ℕ
p2v a = (a + kernbase) % word

-- PDX, PTX, PGADDR(d, 0, 0) and PGROUNDDOWN.
abbrev pub pdx : ℕ → ℕ
pdx va = va / 4194304 % 1024

abbrev pub ptx : ℕ → ℕ
ptx va = va / 4096 % 1024

abbrev pub pgaddr : ℕ → ℕ
pgaddr d = d * 4194304 % word

abbrev pub page_round_down : ℕ → ℕ
page_round_down a = a / page_size * page_size

-- PTE_ADDR, PTE_FLAGS, and the tests of PTE_P and PTE_U.
abbrev pub pte_addr : ℕ → ℕ
pte_addr pte = pte / 4096 * 4096

abbrev pub pte_flags : ℕ → ℕ
pte_flags pte = pte % 4096

abbrev pub present : ℕ → Bool
present pte = pte % 2 == 1

abbrev pub for_user : ℕ → Bool
for_user pte = pte / 4 % 2 == 1

-- PTE_W | PTE_U.
abbrev pub user_perm : ℕ
user_perm = 6

-- The table that an entry of the directory names.
abbrev pub table : ℕ → ℕ
table pde = p2v (pte_addr pde)

-- `memset(page, 0, PGSIZE)`.
abbrev pub cleared : ℕ → Vm → Vm
cleared page s = record s { words = update s.words page (λ i. 0) }

abbrev pub store : ℕ → ℕ → ℕ → Vm → Vm
store page i v s = record s { words = update s.words page (update (s.words page) i v) }

-- The new table `t` for the entry of `va`.
abbrev pub add_table : ℕ → ℕ → ℕ → Vm → Vm
add_table pgdir va t s = store pgdir (pdx va) (v2p t + 7) (cleared t s)

-- The test for a null pointer in what a call returns with the state after it.
abbrev pub got {ℓ κ μ} :
    {A : Type ℓ} {S : Type κ} {B : Type μ} → Option A × S → (S → B) → (A → S → B) → B
got (none, s) null found = null s
got (some a, s) null found = found a s

-- The page and the index of the entry, or `none` for the null pointer.
unfoldable pub walkpgdir : ℕ → ℕ → Bool → Vm → Option (ℕ × ℕ) × Vm
walkpgdir pgdir va alloc s =
    if present (s.words pgdir (pdx va))
    then (some (table (s.words pgdir (pdx va)), ptx va), s)
    else if not alloc
    then (none, s)
    else got (kalloc s.kmem) (λ k. (none, record s { kmem = k }))
        (λ t k. (some (t, ptx va), add_table pgdir va t (record s { kmem = k })))

-- The loop of `mappages`: `true` for 0, `false` for -1. The `|` of `pa`, the flags and PTE_P is a
-- sum, for a page address and flags below 4096, which are all that vm.c gives.
unfoldable pub map_loop : ℕ → ℕ → ℕ → ℕ → ℕ → ℕ → Vm → Outcome (Bool × Vm)
map_loop zero pgdir a last pa perm s = done (false, s)
map_loop (suc fuel) pgdir a last pa perm s =
    got (walkpgdir pgdir a true s) (λ t. done (false, t))
      (λ e t.
        if present (t.words e.0 e.1)
        then panic
        else (let u = store e.0 e.1 (pa + (perm / 2 * 2 + 1)) t in
            if a == last
            then done (true, u)
            else map_loop fuel pgdir ((a + page_size) % word) last ((pa + page_size) % word) perm
                u))

-- The loop ends at `last`, at which it comes after all pages at most.
unfoldable pub mappages : ℕ → ℕ → ℕ → ℕ → ℕ → Vm → Outcome (Bool × Vm)
mappages pgdir va size pa perm s =
    let a = page_round_down va in
    let last = page_round_down ((va + size + word - 1) % word) in
    map_loop (suc ((last + word - a) % word / page_size)) pgdir a last pa perm s

-- The loop of `deallocuvm`; each turn moves `a` up by a page at least, below KERNBASE.
unfoldable pub dealloc_loop : ℕ → ℕ → ℕ → ℕ → ℕ → Vm → Outcome Vm
dealloc_loop kernel_end zero pgdir a oldsz s = done s
dealloc_loop kernel_end (suc fuel) pgdir a oldsz s =
    if leb oldsz a then done s else elim (walkpgdir pgdir a false s).0 [
      | none ↦ dealloc_loop kernel_end fuel pgdir (pgaddr (pdx a + 1)) oldsz s
      | some (page, i) ↦
          let pte = s.words page i in
          let next = (a + page_size) % word in
          if not (present pte)
          then dealloc_loop kernel_end fuel pgdir next oldsz s
          else if pte_addr pte == 0
          then panic
          else (kfree kernel_end (p2v (pte_addr pte)) s.kmem >>= λ k.
              dealloc_loop kernel_end fuel pgdir next oldsz
                (store page i 0 (record s { kmem = k })))
    ]

unfoldable pub deallocuvm : ℕ → ℕ → ℕ → ℕ → Vm → Outcome (ℕ × Vm)
deallocuvm kernel_end pgdir oldsz newsz s =
    if leb oldsz newsz
    then done (oldsz, s)
    else (dealloc_loop kernel_end (suc (oldsz / page_size)) pgdir (page_round_up newsz) oldsz s
        >>= λ t. done (newsz, t))

-- The loop of `allocuvm`: `false` where memory runs out, and then what is left to free.
unfoldable pub alloc_loop : ℕ → ℕ → ℕ → ℕ → ℕ → ℕ → Vm → Outcome (ℕ × Vm)
alloc_loop kernel_end zero pgdir a oldsz newsz s = done (newsz, s)
alloc_loop kernel_end (suc fuel) pgdir a oldsz newsz s =
    if leb newsz a
    then done (newsz, s)
    else got (kalloc s.kmem)
        (λ k.
          deallocuvm kernel_end pgdir newsz oldsz (record s { kmem = k }) >>= λ r. done (0, r.1))
        (λ mem k.
          mappages pgdir a page_size (v2p mem) user_perm (cleared mem (record s { kmem = k }))
          >>= λ r.
              if r.0
              then alloc_loop kernel_end fuel pgdir (a + page_size) oldsz newsz r.1
              else (deallocuvm kernel_end pgdir newsz oldsz r.1 >>= λ q.
                  kfree kernel_end mem q.1.kmem >>= λ k. done (0, record q.1 { kmem = k })))

-- The new size, or 0 on an error.
unfoldable pub allocuvm : ℕ → ℕ → ℕ → ℕ → Vm → Outcome (ℕ × Vm)
allocuvm kernel_end pgdir oldsz newsz s =
    if leb kernbase newsz
    then done (0, s)
    else if ltb newsz oldsz
    then done (oldsz, s)
    else alloc_loop kernel_end (suc (newsz / page_size)) pgdir (page_round_up oldsz) oldsz newsz s

-- `freevm`: the loop over the directory from entry `i` on, with `k` entries left.
unfoldable pub free_tables : ℕ → ℕ → ℕ → ℕ → Vm → Outcome Vm
free_tables kernel_end zero i pgdir s = done s
free_tables kernel_end (suc k) i pgdir s =
    (if present (s.words pgdir i)
      then (kfree kernel_end (table (s.words pgdir i)) s.kmem >>= λ k. done (record s { kmem = k }))
      else done s)
    >>= λ t. free_tables kernel_end k (i + 1) pgdir t

-- A null `pgdir` is `none`.
unfoldable pub freevm : ℕ → Option ℕ → Vm → Outcome Vm
freevm kernel_end none s = panic
freevm kernel_end (some pgdir) s = deallocuvm kernel_end pgdir kernbase 0 s >>= λ r.
    free_tables kernel_end 1024 0 pgdir r.1 >>= λ t.
    kfree kernel_end pgdir t.kmem >>= λ k. done (record t { kmem = k })

-- `*pte &= ~PTE_U`.
unfoldable pub clearpteu : ℕ → ℕ → Vm → Outcome Vm
clearpteu pgdir uva s = elim (walkpgdir pgdir uva false s).0 [
  | none ↦ panic
  | some (page, i) ↦
      let pte = s.words page i in done (store page i (if for_user pte then pte - 4 else pte) s)
]

-- An entry of `kmap`: `virt`, `phys_start`, `phys_end` and `perm`.
pub record Region : Type 0 where
  pub virt : ℕ
  pub phys_start : ℕ
  pub phys_end : ℕ
  pub perm : ℕ

-- The table `kmap`, where `data` is the address of the kernel's data.
abbrev pub kmap : ℕ → List Region
kmap data_start =
    record { virt = kernbase; phys_start = 0; phys_end = 1048576; perm = 2 }
    ∷ record {
      virt = kernbase + 1048576;
      phys_start = 1048576;
      phys_end = v2p data_start;
      perm = 0;
    }
    ∷ record { virt = data_start; phys_start = v2p data_start; phys_end = phystop; perm = 2 }
    ∷ record { virt = 4261412864; phys_start = 4261412864; phys_end = 0; perm = 2 }
    ∷ []

unfoldable pub map_regions : ℕ → ℕ → List Region → Vm → Outcome (Option ℕ × Vm)
map_regions kernel_end pgdir [] s = done (some pgdir, s)
map_regions kernel_end pgdir (k ∷ ks) s =
    mappages pgdir k.virt ((k.phys_end + word - k.phys_start) % word) k.phys_start k.perm s >>= λ r.
    if r.0
    then map_regions kernel_end pgdir ks r.1
    else (freevm kernel_end (some pgdir) r.1 >>= λ t. done (none, t))

unfoldable pub setupkvm : ℕ → ℕ → Vm → Outcome (Option ℕ × Vm)
setupkvm kernel_end data_start s =
    got (kalloc s.kmem) (λ k. done (none, record s { kmem = k }))
      (λ pgdir k.
        map_regions kernel_end pgdir (kmap data_start) (cleared pgdir (record s { kmem = k })))

-- The loop of `copyuvm` from `i` on, and its label `bad`.
unfoldable pub give_up : ℕ → ℕ → Vm → Outcome (Option ℕ × Vm)
give_up kernel_end d s = freevm kernel_end (some d) s >>= λ t. done (none, t)

unfoldable pub copy_page : ℕ → ℕ → ℕ → ℕ → Vm → Outcome (Bool × Vm)
copy_page kernel_end d i pte s =
    got (kalloc s.kmem) (λ k. done (false, record s { kmem = k }))
      (λ mem k.
        mappages d i page_size (v2p mem) (pte_flags pte)
          (record { kmem = k; words = update s.words mem (s.words (table pte)) })
        >>= λ r.
            if r.0
            then done (true, r.1)
            else (kfree kernel_end mem r.1.kmem >>= λ k. done (false, record r.1 { kmem = k })))

unfoldable pub copy_loop : ℕ → ℕ → ℕ → ℕ → ℕ → ℕ → Vm → Outcome (Option ℕ × Vm)
copy_loop kernel_end zero pgdir d i sz s = done (some d, s)
copy_loop kernel_end (suc fuel) pgdir d i sz s =
    if leb sz i then done (some d, s) else elim (walkpgdir pgdir i false s).0 [
      | none ↦ panic
      | some (page, j) ↦
          let pte = s.words page j in
          if not (present pte)
          then panic
          else (copy_page kernel_end d i pte s >>= λ r.
              if r.0
              then copy_loop kernel_end fuel pgdir d (i + page_size) sz r.1
              else give_up kernel_end d r.1)
    ]

unfoldable pub copyuvm : ℕ → ℕ → ℕ → ℕ → Vm → Outcome (Option ℕ × Vm)
copyuvm kernel_end data_start pgdir sz s = setupkvm kernel_end data_start s >>= λ r. elim r.0 [
  | none ↦ done (none, r.1)
  | some d ↦ copy_loop kernel_end (suc (sz / page_size)) pgdir d 0 sz r.1
]
