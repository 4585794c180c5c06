-- ===== src/Vm/Dealloc.antt =====
-- `deallocuvm` (vm.c) unmaps the pages of a range and frees each of them once.
use ducko_unix.Prelude.{
  ℕ, zero, suc, ◌+◌, ◌*◌, ◌/◌, ◌%◌, ◌<◌, ◌≤◌, leb, ◌==◌, ◌≡◌, refl, true, false, ◌∷◌, none, some,
  Outcome, done, arith, ap, ◌∙◌, sym, Bool-cases, inl, inr, ne→==_false,
}
use ducko_unix.Kalloc.{page_size, kernbase, is_page, page_round_up}
use ducko_unix.Vm.{
  Vm, word, pdx, ptx, pgaddr, pte_addr, present, table, store, walkpgdir, dealloc_loop, deallocuvm,
}
use ducko_unix.Vm.Entries.{pte, has_table, table_of}
use ducko_unix.Vm.Walk.{walk_find}
use ducko_unix.Vm.Space.{is_mapped, IsSpace, kfree-page, unmapped, unmapped-IsSpace}
use ducko_unix.Vm.Unmapped.{IsUnmapped, none-IsUnmapped, skip-IsUnmapped, pte_same, one-IsUnmapped}

-- The three kinds of turn.
turn_far :
    (kernel_end fuel : ℕ) (s : Vm) (pgdir a oldsz : ℕ)
    → a < oldsz
    → has_table s pgdir (pdx a) ≡ false
    → dealloc_loop kernel_end (suc fuel) pgdir a oldsz s
      ≡ dealloc_loop kernel_end fuel pgdir (pgaddr (pdx a + 1)) oldsz s
unfolding dealloc_loop
turn_far kernel_end fuel s pgdir a oldsz lt absent =
    let go : leb oldsz a ≡ false = ground (arith, lt) in
    let find : walkpgdir pgdir a false s ≡ (none, s) = walk_find s pgdir a ∙ rw absent refl in
    rw (go, find) refl

module _ (s : Vm) (pgdir a : ℕ) (there : has_table s pgdir (pdx a) ≡ true) where
  find_table : walkpgdir pgdir a false s ≡ (some (table_of s pgdir (pdx a), ptx a), s)
  find_table = walk_find s pgdir a ∙ rw there refl

  found_entry : s.words (table_of s pgdir (pdx a)) (ptx a) ≡ pte s pgdir a
  found_entry = rw there refl

turn_unmapped :
    (kernel_end fuel : ℕ) (s : Vm) (pgdir a oldsz : ℕ)
    → a < oldsz
    → a < kernbase
    → has_table s pgdir (pdx a) ≡ true
    → is_mapped s pgdir a ≡ false
    → dealloc_loop kernel_end (suc fuel) pgdir a oldsz s
      ≡ dealloc_loop kernel_end fuel pgdir (a + page_size) oldsz s
unfolding dealloc_loop
turn_unmapped kernel_end fuel s pgdir a oldsz lt small there absent =
    let go : leb oldsz a ≡ false = ground (arith, lt) in
    let next : (a + page_size) % word ≡ a + page_size = omega (arith, small) in
    rw (go, find_table s pgdir a there, found_entry s pgdir a there, absent)
      (ap (λ n. dealloc_loop kernel_end fuel pgdir n oldsz s) next)

abbrev freeing : ℕ → ℕ → ℕ → Vm → Vm
freeing pgdir a e s =
    store (table_of s pgdir (pdx a)) (ptx a) 0
      (record s { kmem = record s.kmem { freelist = table e ∷ s.kmem.freelist } })

turn_mapped :
    (kernel_end fuel : ℕ) (s : Vm) (pgdir a oldsz : ℕ)
    → a < oldsz
    → a < kernbase
    → IsSpace kernel_end s pgdir
    → has_table s pgdir (pdx a) ≡ true
    → is_mapped s pgdir a ≡ true
    → dealloc_loop kernel_end (suc fuel) pgdir a oldsz s
      ≡ dealloc_loop kernel_end fuel pgdir (a + page_size) oldsz (unmapped pgdir a s)
unfolding dealloc_loop
turn_mapped kernel_end fuel s pgdir a oldsz lt small v there mapped =
    let go : leb oldsz a ≡ false = ground (arith, lt) in
    let next : (a + page_size) % word ≡ a + page_size = omega (arith, small) in
    let e = s.words (table_of s pgdir (pdx a)) (ptx a) in
    let is : e ≡ pte s pgdir a = found_entry s pgdir a there in
    let mapped' : present e ≡ true = ap (λ e. present e) is ∙ mapped in
    let real : (pte_addr e == 0) ≡ false =
      ne→==_false (pte_addr e) 0 (λ z. v.real a small mapped (sym (ap (λ e. pte_addr e) is) ∙ z)) in
    let freed =
      kfree-page kernel_end (table e) s.kmem
        (ap (λ e. is_page kernel_end (table e)) is ∙ v.whole a small mapped) in
    rw (go, find_table s pgdir a there, mapped', real, freed)
      (ap (λ n. dealloc_loop kernel_end fuel pgdir n oldsz (freeing pgdir a e s)) next
        ∙ ap (λ e. dealloc_loop kernel_end fuel pgdir (a + page_size) oldsz (freeing pgdir a e s))
            is)

Freeing : ℕ → Vm → ℕ → ℕ → ℕ → Outcome Vm → Type 0
Freeing kernel_end s pgdir lo hi r = (t : Vm) × (r ≡ done t) × IsUnmapped kernel_end s t pgdir lo hi

dealloc_loop-Freeing :
    (kernel_end fuel : ℕ) (s : Vm) (pgdir a oldsz hi : ℕ)
    → IsSpace kernel_end s pgdir
    → a % page_size ≡ 0
    → hi % page_size ≡ 0
    → oldsz ≤ hi
    → hi < oldsz + page_size
    → hi ≤ kernbase
    → hi ≤ a + fuel * page_size
    → Freeing kernel_end s pgdir a hi (dealloc_loop kernel_end fuel pgdir a oldsz s)
unfolding dealloc_loop Freeing
dealloc_loop-Freeing kernel_end zero s pgdir a oldsz hi v whole whole' le lt user enough =
    (s, refl, none-IsUnmapped kernel_end s pgdir a hi v (omega arith))
dealloc_loop-Freeing kernel_end (suc fuel) s pgdir a oldsz hi v whole whole' le lt user enough =
    elim (Bool-cases (leb oldsz a)) [
      | inl stop ↦
          let end : oldsz ≤ a = ground (arith, stop) in
          (s, rw stop refl, none-IsUnmapped kernel_end s pgdir a hi v (omega (arith, end)))
      | inr go ↦
          let before : a < oldsz = ground (arith, go) in
          let small : a < kernbase = omega (arith, before, le, user) in
          elim (Bool-cases (has_table s pgdir (pdx a))) [
            | inr absent ↦
                let far = pgaddr (pdx a + 1) in
                let (t, eq, w) =
                  dealloc_loop-Freeing kernel_end fuel s pgdir far oldsz hi v (omega arith) whole'
                    le lt user (omega (arith, enough, small)) in
                (
                  t,
                  turn_far kernel_end fuel s pgdir a oldsz before absent ∙ eq,
                  skip-IsUnmapped kernel_end s t pgdir a far hi (omega (arith, small))
                      (λ x lx l h.
                        let same : pdx a ≡ pdx x = omega (arith, small, l, h) in
                        let absent' : has_table s pgdir (pdx x) ≡ false =
                          ap (λ i. has_table s pgdir i) (sym same) ∙ absent in
                        rw absent' refl)
                      w,
                )
            | inl there ↦ elim (Bool-cases (is_mapped s pgdir a)) [
              | inr hole ↦
                  let (t, eq, w) =
                    dealloc_loop-Freeing kernel_end fuel s pgdir (a + page_size) oldsz hi v
                      (omega (arith, whole)) whole' le lt user (omega (arith, enough)) in
                  (
                    t,
                    turn_unmapped kernel_end fuel s pgdir a oldsz before small there hole ∙ eq,
                    skip-IsUnmapped kernel_end s t pgdir a (a + page_size) hi (omega arith)
                        (λ x lx l h.
                          ap (λ e. present e) (pte_same s pgdir x a (omega (arith, l, h, whole)))
                          ∙ hole)
                        w,
                  )
              | inl mapped ↦
                  let (t, eq, w) =
                    dealloc_loop-Freeing kernel_end fuel (unmapped pgdir a s) pgdir (a + page_size)
                      oldsz hi (unmapped-IsSpace kernel_end s pgdir a v there small mapped)
                      (omega (arith, whole)) whole' le lt user (omega (arith, enough)) in
                  (
                    t,
                    turn_mapped kernel_end fuel s pgdir a oldsz before small v there mapped ∙ eq,
                    one-IsUnmapped kernel_end s t pgdir a hi v whole small
                        (omega (arith, whole, whole', before, le)) there mapped w,
                  )
            ]
          ]
    ]

-- `deallocuvm` from a size of at most KERNBASE to a smaller one does not panic and returns the new
-- size. No page from the new size, rounded up, to the old size is mapped after it, each page that
-- was mapped there is free exactly once, and the rest of the address space is as it was.
pub deallocuvm_lem :
    (kernel_end : ℕ) (s : Vm) (pgdir oldsz newsz : ℕ)
    → IsSpace kernel_end s pgdir
    → newsz < oldsz
    → oldsz ≤ kernbase
    → (t : Vm) × (deallocuvm kernel_end pgdir oldsz newsz s ≡ done (newsz, t))
      × IsUnmapped kernel_end s t pgdir (page_round_up newsz) (page_round_up oldsz)
unfolding deallocuvm Freeing
deallocuvm_lem kernel_end s pgdir oldsz newsz v lt user =
    let go : leb oldsz newsz ≡ false = ground (arith, lt) in
    let (t, eq, w) =
      dealloc_loop-Freeing kernel_end (suc (oldsz / page_size)) s pgdir (page_round_up newsz) oldsz
        (page_round_up oldsz) v (omega arith) (omega arith) (omega arith) (omega arith)
        (omega (arith, user)) (omega arith) in
    (t, rw (go, eq) refl, w)
