-- ===== src/Vm/Space.antt =====
-- The user part of an address space (vm.c): its pages are pages of the kernel, each one mapped
-- once.
use ducko_unix.Prelude.{
  ℕ, ◌/◌, ◌%◌, ◌<◌, ◌≤◌, ◌==◌, ◌≡◌, ◌≢◌, refl, Bool, true, false, ◌∷◌, if◌then◌else◌, done, arith,
  ap, ◌∙◌, sym, subst, Bool-cases, inl, inr, ne→==_false, ==_refl,
}
use ducko_unix.Kalloc.{page_size, kernbase, Kmem, is_page, kfree}
use ducko_unix.Kalloc.Pages.{count}
use ducko_unix.Vm.{Vm, word, pte_addr, pdx, ptx, present, table, store}
use ducko_unix.Vm.Entries.{pte, has_table, table_of, IsTables}
use ducko_unix.Vm.Store.{store-IsTables, store-dir, pte-store}

-- The page of a user address.
abbrev pub page_of : Vm → ℕ → ℕ → ℕ
page_of s pgdir x = table (pte s pgdir x)

abbrev pub is_mapped : Vm → ℕ → ℕ → Bool
is_mapped s pgdir x = present (pte s pgdir x)

pub record IsSpace (kernel_end : ℕ) (s : Vm) (pgdir : ℕ) : Type 0 where
  pub tables : IsTables s pgdir
  pub whole :
      (x : ℕ)
      → x < kernbase
      → is_mapped s pgdir x ≡ true
      → is_page kernel_end (page_of s pgdir x) ≡ true
  pub real : (x : ℕ) → x < kernbase → is_mapped s pgdir x ≡ true → pte_addr (pte s pgdir x) ≢ 0
  pub held :
      (x : ℕ)
      → x < kernbase
      → is_mapped s pgdir x ≡ true
      → count (page_of s pgdir x) s.kmem.freelist ≡ 0
  pub no_dir : (x : ℕ) → x < kernbase → is_mapped s pgdir x ≡ true → page_of s pgdir x ≢ pgdir
  pub no_table :
      (x i : ℕ)
      → x < kernbase
      → i < 1024
      → is_mapped s pgdir x ≡ true
      → has_table s pgdir i ≡ true
      → page_of s pgdir x ≢ table_of s pgdir i
  pub once :
      (x y : ℕ)
      → x < kernbase
      → y < kernbase
      → is_mapped s pgdir x ≡ true
      → is_mapped s pgdir y ≡ true
      → page_of s pgdir x ≡ page_of s pgdir y
      → x / page_size ≡ y / page_size

pub kfree-page :
    (kernel_end v : ℕ) (k : Kmem)
    → is_page kernel_end v ≡ true
    → kfree kernel_end v k ≡ done (record k { freelist = v ∷ k.freelist })
unfolding kfree
kfree-page kernel_end v k page = rw page refl

page_bounds :
    (kernel_end v : ℕ)
    → v < word
    → is_page kernel_end v ≡ true
    → (v % page_size ≡ 0) × (kernbase ≤ v) × (v < word)
page_bounds kernel_end v lt page = (ground (arith, page), ground (arith, page, lt), lt)

-- The page of `a` is unmapped and goes to the free pages.
abbrev pub unmapped : ℕ → ℕ → Vm → Vm
unmapped pgdir a s =
    store (table_of s pgdir (pdx a)) (ptx a) 0
      (record s { kmem = record s.kmem { freelist = page_of s pgdir a ∷ s.kmem.freelist } })

pub pte-unmapped :
    (kernel_end : ℕ) (s : Vm) (pgdir a x : ℕ)
    → IsSpace kernel_end s pgdir
    → has_table s pgdir (pdx a) ≡ true
    → a < word
    → x < word
    → pte (unmapped pgdir a s) pgdir x
      ≡ (if a / page_size == x / page_size then 0 else pte s pgdir x)
pte-unmapped kernel_end s pgdir a x v there la lx = pte-store s pgdir a 0 x v.tables there la lx

unmapped-IsTables :
    (kernel_end : ℕ) (s : Vm) (pgdir a : ℕ)
    → IsSpace kernel_end s pgdir
    → has_table s pgdir (pdx a) ≡ true
    → a < kernbase
    → is_mapped s pgdir a ≡ true
    → IsTables (unmapped pgdir a s) pgdir
unmapped-IsTables kernel_end s pgdir a v there lt mapped =
    let w = store-IsTables s pgdir a 0 v.tables there in
    let page = page_of s pgdir a in
    record {
      no_loop = w.no_loop;
      apart = w.apart;
      pages = λ q pos. elim (Bool-cases (page == q)) [
        | inl e ↦
            let is : page ≡ q = ground (arith, e) in
            subst (λ q. (q % page_size ≡ 0) × (kernbase ≤ q) × (q < word)) is
              (page_bounds kernel_end page (omega arith) (v.whole a lt mapped))
        | inr e ↦ v.tables.pages q (ground (arith, pos, e))
      ];
      once = λ q. elim (Bool-cases (page == q)) [
        | inl e ↦
            let is : page ≡ q = ground (arith, e) in
            subst (λ q. count q (page ∷ s.kmem.freelist) ≤ 1) is
              (ground (arith, v.held a lt mapped, ==_refl page))
        | inr e ↦ ground (arith, v.tables.once q, e)
      ];
      dir_held = ground (arith, ne→==_false page pgdir (v.no_dir a lt mapped), v.tables.dir_held);
      tables_held = λ i small has.
          let dir = store-dir s pgdir a 0 v.tables there in
          let is = ap (λ d. table (d i)) dir in
          let has' : has_table s pgdir i ≡ true = sym (ap (λ d. present (d i)) dir) ∙ has in
          let ne = ne→==_false page (table_of s pgdir i) (v.no_table a i lt small mapped has') in
          ap (λ q. count q (page ∷ s.kmem.freelist)) is
          ∙ ground (arith, ne, v.tables.tables_held i small has');
    }

-- What is still mapped.
still_mapped :
    (kernel_end : ℕ) (s : Vm) (pgdir a x : ℕ)
    → IsSpace kernel_end s pgdir
    → has_table s pgdir (pdx a) ≡ true
    → a < kernbase
    → x < kernbase
    → is_mapped (unmapped pgdir a s) pgdir x ≡ true
    → (a / page_size ≢ x / page_size)
      × (pte (unmapped pgdir a s) pgdir x ≡ pte s pgdir x)
      × (is_mapped s pgdir x ≡ true)
still_mapped kernel_end s pgdir a x v there la lx still =
    let is = pte-unmapped kernel_end s pgdir a x v there (omega arith) (omega arith) in
    let yet = sym (ap (λ e. present e) is) ∙ still in
    elim (Bool-cases (a / page_size == x / page_size)) [
      | inl e ↦ absurd (ground (arith, yet, e))
      | inr e ↦
          let same : pte (unmapped pgdir a s) pgdir x ≡ pte s pgdir x = is ∙ rw e refl in
          (ground (arith, e), same, sym (ap (λ e. present e) same) ∙ still)
    ]

pub unmapped-IsSpace :
    (kernel_end : ℕ) (s : Vm) (pgdir a : ℕ)
    → IsSpace kernel_end s pgdir
    → has_table s pgdir (pdx a) ≡ true
    → a < kernbase
    → is_mapped s pgdir a ≡ true
    → IsSpace kernel_end (unmapped pgdir a s) pgdir
unmapped-IsSpace kernel_end s pgdir a v there lt mapped =
    let still = λ (x : ℕ) (lx : x < kernbase). still_mapped kernel_end s pgdir a x v there lt lx in
    let t = unmapped pgdir a s in
    let dir = store-dir s pgdir a 0 v.tables there in
    record {
      tables = unmapped-IsTables kernel_end s pgdir a v there lt mapped;
      whole = λ x lx m.
          let (_, is, m') = still x lx m in
          ap (λ e. is_page kernel_end (table e)) is ∙ v.whole x lx m';
      real = λ x lx m.
          let (_, is, m') = still x lx m in λ z. v.real x lx m' (sym (ap (λ e. pte_addr e) is) ∙ z);
      held = λ x lx m.
          let (ne, is, m') = still x lx m in
          let apart : (page_of s pgdir a == page_of s pgdir x) ≡ false =
            ne→==_false (page_of s pgdir a) (page_of s pgdir x)
              (λ z. ne (v.once a x lt lx mapped m' z)) in
          ap (λ e. count (table e) (page_of s pgdir a ∷ s.kmem.freelist)) is
          ∙ ground (arith, apart, v.held x lx m');
      no_dir = λ x lx m.
          let (_, is, m') = still x lx m in λ z. v.no_dir x lx m' (sym (ap (λ e. table e) is) ∙ z);
      no_table = λ x i lx li m has.
          let (_, is, m') = still x lx m in
          let has' : has_table s pgdir i ≡ true = sym (ap (λ d. present (d i)) dir) ∙ has in
          λ z.
            v.no_table x i lx li m' has'
              (sym (ap (λ e. table e) is) ∙ z ∙ ap (λ d. table (d i)) dir);
      once = λ x y lx ly mx my z.
          let (_, is, mx') = still x lx mx in
          let (_, js, my') = still y ly my in
          v.once x y lx ly mx' my' (sym (ap (λ e. table e) is) ∙ z ∙ ap (λ e. table e) js);
    }
