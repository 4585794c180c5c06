-- ===== src/Vm/Unmapped.antt =====
-- `deallocuvm` (vm.c) unmaps the pages of a range and frees each of them once.
use ducko_unix.Prelude.{
  ℕ, ◌+◌, ◌/◌, ◌%◌, ◌<◌, ◌≤◌, ltb, leb, ◌==◌, ◌≡◌, refl, true, false, ◌&&◌, if◌then◌else◌, arith,
  ap, ◌∙◌, sym, subst, Bool-cases, inl, inr, ==_refl,
}
use ducko_unix.Kalloc.{page_size, kernbase}
use ducko_unix.Kalloc.Pages.{count}
use ducko_unix.Vm.{Vm, pdx, ptx, present, table}
use ducko_unix.Vm.Entries.{pte, has_table, table_of}
use ducko_unix.Vm.Space.{page_of, is_mapped, IsSpace, unmapped, pte-unmapped}

-- The pages from `lo` to `hi` are unmapped and free, and everything else is as it was.
pub record IsUnmapped (kernel_end : ℕ) (s t : Vm) (pgdir lo hi : ℕ) : Type 0 where
  pub space : IsSpace kernel_end t pgdir
  pub gone : (x : ℕ) → x < kernbase → lo ≤ x → x < hi → is_mapped t pgdir x ≡ false
  pub kept : (x : ℕ) → x < kernbase → (leb lo x && ltb x hi) ≡ false → pte t pgdir x ≡ pte s pgdir x
  pub freed :
      (x : ℕ)
      → x < kernbase
      → lo ≤ x
      → x < hi
      → is_mapped s pgdir x ≡ true
      → count (page_of s pgdir x) t.kmem.freelist ≡ 1
  pub free : (q : ℕ) → count q s.kmem.freelist ≤ count q t.kmem.freelist

pub none-IsUnmapped :
    (kernel_end : ℕ) (s : Vm) (pgdir lo hi : ℕ)
    → IsSpace kernel_end s pgdir
    → hi ≤ lo
    → IsUnmapped kernel_end s s pgdir lo hi
none-IsUnmapped kernel_end s pgdir lo hi v le = record {
  space = v;
  gone = λ x lx l h. absurd (omega arith);
  kept = λ x lx o. refl;
  freed = λ x lx l h. absurd (omega arith);
  free = λ q. omega arith;
}

-- A stretch without mappings comes first.
pub skip-IsUnmapped :
    (kernel_end : ℕ) (s t : Vm) (pgdir lo mid hi : ℕ)
    → lo ≤ mid
    → ((x : ℕ) → x < kernbase → lo ≤ x → x < mid → is_mapped s pgdir x ≡ false)
    → IsUnmapped kernel_end s t pgdir mid hi
    → IsUnmapped kernel_end s t pgdir lo hi
skip-IsUnmapped kernel_end s t pgdir lo mid hi le absent v = record {
  space = v.space;
  gone = λ x lx l h. elim (Bool-cases (ltb x mid)) [
    | inl before ↦
        let lt : x < mid = ground (arith, before) in
        let out : (leb mid x && ltb x hi) ≡ false = ground (arith, before) in
        ap (λ e. present e) (v.kept x lx out) ∙ absent x lx l lt
    | inr after ↦ v.gone x lx (ground (arith, after)) h
  ];
  kept = λ x lx o. v.kept x lx (ground (arith, o, le));
  freed = λ x lx l h m. elim (Bool-cases (ltb x mid)) [
    | inl before ↦
        let none_there = absent x lx l (ground (arith, before)) in
        absurd (ground (arith, none_there, m))
    | inr after ↦ v.freed x lx (ground (arith, after)) h m
  ];
  free = v.free;
}

pub pte_same :
    (s : Vm) (pgdir a x : ℕ) → a / page_size ≡ x / page_size → pte s pgdir a ≡ pte s pgdir x
pte_same s pgdir a x e =
    let d : pdx a ≡ pdx x = omega (arith, e) in
    let i : ptx a ≡ ptx x = omega (arith, e) in
    ap (λ d. if has_table s pgdir d then s.words (table_of s pgdir d) (ptx a) else 0) d
    ∙ ap (λ i. if has_table s pgdir (pdx x) then s.words (table_of s pgdir (pdx x)) i else 0) i

-- A page that is unmapped comes first.
pub one-IsUnmapped :
    (kernel_end : ℕ) (s t : Vm) (pgdir a hi : ℕ)
    → IsSpace kernel_end s pgdir
    → a % page_size ≡ 0
    → a < kernbase
    → a + page_size ≤ hi
    → has_table s pgdir (pdx a) ≡ true
    → is_mapped s pgdir a ≡ true
    → IsUnmapped kernel_end (unmapped pgdir a s) t pgdir (a + page_size) hi
    → IsUnmapped kernel_end s t pgdir a hi
one-IsUnmapped kernel_end s t pgdir a hi w whole lt fits there mapped v =
    let first = λ (x : ℕ) (lx : x < kernbase).
      pte-unmapped kernel_end s pgdir a x w there (omega arith) (omega arith) in
    record {
      space = v.space;
      gone = λ x lx l h. elim (Bool-cases (a / page_size == x / page_size)) [
        | inl e ↦
            let out : (leb (a + page_size) x && ltb x hi) ≡ false = ground (arith, e, whole) in
            let zero' : pte (unmapped pgdir a s) pgdir x ≡ 0 = first x lx ∙ rw e refl in
            ap (λ e. present e) (v.kept x lx out ∙ zero')
        | inr e ↦ v.gone x lx (ground (arith, e, l, whole)) h
      ];
      kept = λ x lx o.
          let out : (leb (a + page_size) x && ltb x hi) ≡ false = ground (arith, o) in
          let e : (a / page_size == x / page_size) ≡ false = ground (arith, o, whole, fits) in
          v.kept x lx out ∙ first x lx ∙ rw e refl;
      freed = λ x lx l h m. elim (Bool-cases (a / page_size == x / page_size)) [
        | inl e ↦
            let at : a / page_size ≡ x / page_size = ground (arith, e) in
            let is : page_of s pgdir a ≡ page_of s pgdir x =
              ap (λ e. table e) (pte_same s pgdir a x at) in
            let bigger = v.free (page_of s pgdir a) in
            let one : count (page_of s pgdir a) t.kmem.freelist ≡ 1 = ground (
              arith,
              bigger,
              ==_refl (page_of s pgdir a),
              v.space.tables.once (page_of s pgdir a),
            ) in
            subst (λ p. count p t.kmem.freelist ≡ 1) is one
        | inr e ↦
            let same : pte (unmapped pgdir a s) pgdir x ≡ pte s pgdir x = first x lx ∙ rw e refl in
            ap (λ e. count (table e) t.kmem.freelist) (sym same)
            ∙ v.freed x lx (ground (arith, e, l, whole)) h (ap (λ e. present e) same ∙ m)
      ];
      free = λ q. ground (arith, v.free q);
    }
