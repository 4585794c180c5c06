-- ===== src/Vm/Store.antt =====
-- Entries of page tables (vm.c) are written.
use ducko_unix.Prelude.{
  ℕ, ◌/◌, ◌<◌, ◌==◌, ◌≡◌, ◌≢◌, refl, true, false, if◌then◌else◌, arith, ap, ◌∙◌, sym, Bool-cases,
  inl, inr, ne→==_false, ==_refl,
}
use ducko_unix.Kalloc.{page_size}
use ducko_unix.Kalloc.Pages.{count}
use ducko_unix.Vm.{Vm, word, pdx, ptx, present, table, store}
use ducko_unix.Vm.Entries.{pte, has_table, table_of, IsTables}

-- The directory and the free pages are what counts.
pub same-IsTables :
    (s t : Vm) (pgdir : ℕ)
    → t.words pgdir ≡ s.words pgdir
    → t.kmem.freelist ≡ s.kmem.freelist
    → IsTables s pgdir
    → IsTables t pgdir
same-IsTables s t pgdir e f v =
    let was =
      λ (i : ℕ) (there : has_table t pgdir i ≡ true). sym (ap (λ d. present (d i)) e) ∙ there in
    let is = λ (i : ℕ). ap (λ d. table (d i)) e in
    let free = λ (q : ℕ). ap (λ l. count q l) f in
    record {
      no_loop = λ i lt there z. v.no_loop i lt (was i there) (sym (is i) ∙ z);
      apart = λ i j li lj ti tj z. v.apart i j li lj (was i ti) (was j tj) (sym (is i) ∙ z ∙ is j);
      pages = λ q pos. v.pages q (omega (arith, pos, free q));
      once = λ q. omega (arith, free q, v.once q);
      dir_held = free pgdir ∙ v.dir_held;
      tables_held = λ i lt there.
          ap (λ q. count q t.kmem.freelist) (is i)
          ∙ free (table_of s pgdir i)
          ∙ v.tables_held i lt (was i there);
    }

-- An entry is written.
pub store-dir :
    (s : Vm) (pgdir va v : ℕ)
    → IsTables s pgdir
    → has_table s pgdir (pdx va) ≡ true
    → (store (table_of s pgdir (pdx va)) (ptx va) v s).words pgdir ≡ s.words pgdir
store-dir s pgdir va v w there =
    rw (ne→==_false (table_of s pgdir (pdx va)) pgdir (w.no_loop (pdx va) (omega arith) there)) refl

pub store-IsTables :
    (s : Vm) (pgdir va v : ℕ)
    → IsTables s pgdir
    → has_table s pgdir (pdx va) ≡ true
    → IsTables (store (table_of s pgdir (pdx va)) (ptx va) v s) pgdir
store-IsTables s pgdir va v w there =
    same-IsTables s (store (table_of s pgdir (pdx va)) (ptx va) v s) pgdir
      (store-dir s pgdir va v w there) refl w

abbrev entry_in : (ℕ → ℕ) → (ℕ → ℕ → ℕ) → ℕ → ℕ
entry_in dir words va = if present (dir (pdx va)) then words (table (dir (pdx va))) (ptx va) else 0

pub pte-store :
    (s : Vm) (pgdir va v a : ℕ)
    → IsTables s pgdir
    → has_table s pgdir (pdx va) ≡ true
    → va < word
    → a < word
    → pte (store (table_of s pgdir (pdx va)) (ptx va) v s) pgdir a
      ≡ (if va / page_size == a / page_size then v else pte s pgdir a)
pte-store s pgdir va v a w there lt lt' =
    let t = store (table_of s pgdir (pdx va)) (ptx va) v s in
    ap (λ dir. entry_in dir t.words a) (store-dir s pgdir va v w there)
    ∙ elim (Bool-cases (pdx va == pdx a)) [
      | inl e ↦
          let at : pdx va ≡ pdx a = ground (arith, e) in
          let test : (ptx va == ptx a) ≡ (va / page_size == a / page_size) =
            ground (arith, at, lt, lt') in
          let there' : has_table s pgdir (pdx a) ≡ true =
            ap (λ i. has_table s pgdir i) (sym at) ∙ there in
          let same : (table_of s pgdir (pdx va) == table_of s pgdir (pdx a)) ≡ true =
            rw at (==_refl (table_of s pgdir (pdx a))) in
          rw (there', same, test)
            (ap
              (λ i.
                if va / page_size == a / page_size then v else s.words (table_of s pgdir i) (ptx a))
              at)
      | inr e ↦
          let test : (va / page_size == a / page_size) ≡ false = ground (arith, e) in
          rw test (elim (Bool-cases (has_table s pgdir (pdx a))) [
            | inr absent ↦ rw absent refl
            | inl there' ↦
                let ne : table_of s pgdir (pdx va) ≢ table_of s pgdir (pdx a) = λ z. absurd (
                  ground (
                    arith,
                    e,
                    w.apart (pdx va) (pdx a) (omega arith) (omega arith) there there' z,
                  )) in
                rw (there', ne→==_false (table_of s pgdir (pdx va)) (table_of s pgdir (pdx a)) ne)
                  refl
          ])
    ]
