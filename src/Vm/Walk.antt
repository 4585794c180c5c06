-- ===== src/Vm/Walk.antt =====
-- `walkpgdir` (vm.c) keeps every translation.
use ducko_unix.Prelude.{
  ℕ, ◌+◌, ◌<◌, ◌≤◌, ◌==◌, ◌≡◌, ◌≢◌, refl, true, false, List, [], ◌∷◌, if◌then◌else◌, none, some,
  arith, ap, ◌∙◌, sym, Bool-cases, inl, inr, ◌⊎◌, ne→==_false, ==_refl,
}
use ducko_unix.Kalloc.{Kmem}
use ducko_unix.Kalloc.Pages.{count}
use ducko_unix.Vm.{Vm, pdx, ptx, present, table, add_table, walkpgdir}
use ducko_unix.Vm.Entries.{pte, has_table, table_of, IsTables, kalloc-cases, table-entry}

-- What a new table changes: one entry of the directory, to a page that was free and is zero now.
record IsAdded (s t : Vm) (pgdir p page : ℕ) (rest : List ℕ) : Type 0 where
  pub free : s.kmem.freelist ≡ page ∷ rest
  left : t.kmem.freelist ≡ rest
  none : has_table s pgdir p ≡ false
  here : has_table t pgdir p ≡ true
  names : table_of t pgdir p ≡ page
  entries : (i : ℕ) → p ≢ i → t.words pgdir i ≡ s.words pgdir i
  zeros : (j : ℕ) → t.words page j ≡ 0
  others : (b j : ℕ) → pgdir ≢ b → page ≢ b → t.words b j ≡ s.words b j

-- A table of the new state is the new page or a table of the old state.
table-cases :
    (s t : Vm) (pgdir p page : ℕ) (rest : List ℕ) (i : ℕ)
    → IsAdded s t pgdir p page rest
    → has_table t pgdir i ≡ true
    → ((p ≡ i) × (table_of t pgdir i ≡ page))
      ⊎ ((p ≢ i) × (has_table s pgdir i ≡ true) × (table_of t pgdir i ≡ table_of s pgdir i))
table-cases s t pgdir p page rest i a there = elim (Bool-cases (p == i)) [
  | inl e ↦
      let at : p ≡ i = ground (arith, e) in
      inl (at, ap (λ i. table_of t pgdir i) (sym at) ∙ a.names)
  | inr e ↦
      let ne : p ≢ i = ground (arith, e) in
      inr
        (ne, sym (ap (λ e. present e) (a.entries i ne)) ∙ there, ap (λ e. table e) (a.entries i ne))
]

-- No table is the page that was free.
not_new :
    (s t : Vm) (pgdir p page : ℕ) (rest : List ℕ) (i : ℕ)
    → IsTables s pgdir
    → IsAdded s t pgdir p page rest
    → i < 1024
    → has_table s pgdir i ≡ true
    → page ≢ table_of s pgdir i
not_new s t pgdir p page rest i v a lt there z =
    let was_free : 0 < count page s.kmem.freelist = rw (a.free, ==_refl page) (omega arith) in
    absurd (omega (arith, was_free, v.tables_held i lt there, ap (λ q. count q s.kmem.freelist) z))

not_dir :
    (s t : Vm) (pgdir p page : ℕ) (rest : List ℕ)
    → IsTables s pgdir
    → IsAdded s t pgdir p page rest
    → page ≢ pgdir
not_dir s t pgdir p page rest v a z =
    let was_free : 0 < count page s.kmem.freelist = rw (a.free, ==_refl page) (omega arith) in
    absurd (omega (arith, was_free, v.dir_held, ap (λ q. count q s.kmem.freelist) z))

fewer :
    (s t : Vm) (pgdir p page : ℕ) (rest : List ℕ) (q : ℕ)
    → IsAdded s t pgdir p page rest
    → count q s.kmem.freelist ≡ (if page == q then 1 else 0) + count q t.kmem.freelist
fewer s t pgdir p page rest q a = rw (a.free, a.left) refl

added-IsTables :
    (s t : Vm) (pgdir p page : ℕ) (rest : List ℕ)
    → IsTables s pgdir
    → IsAdded s t pgdir p page rest
    → IsTables t pgdir
added-IsTables s t pgdir p page rest v a =
    let old = λ (i : ℕ). table-cases s t pgdir p page rest i a in
    let less = λ (q : ℕ). fewer s t pgdir p page rest q a in
    record {
      no_loop = λ i lt there. elim (old i there) [
        | inl (_, is) ↦ λ z. not_dir s t pgdir p page rest v a (sym is ∙ z)
        | inr (_, there', is) ↦ λ z. v.no_loop i lt there' (sym is ∙ z)
      ];
      apart = λ i j li lj ti tj. elim (old i ti) [
        | inl (ai, is) ↦ elim (old j tj) [
          | inl (aj, _) ↦ λ _. sym ai ∙ aj
          | inr (_, tj', js) ↦
              λ z. absurd (not_new s t pgdir p page rest j v a lj tj' (sym is ∙ z ∙ js))
        ]
        | inr (_, ti', is) ↦ elim (old j tj) [
          | inl (_, js) ↦
              λ z. absurd (not_new s t pgdir p page rest i v a li ti' (sym js ∙ sym z ∙ is))
          | inr (_, tj', js) ↦ λ z. v.apart i j li lj ti' tj' (sym is ∙ z ∙ js)
        ]
      ];
      pages = λ q pos. v.pages q (ground (arith, less q, pos));
      once = λ q. ground (arith, less q, v.once q);
      dir_held = ground (arith, less pgdir, v.dir_held);
      tables_held = λ i lt there. elim (old i there) [
        | inl (_, is) ↦
            ap (λ q. count q t.kmem.freelist) is
            ∙ ground (arith, less page, v.once page, ==_refl page)
        | inr (_, there', is) ↦
            ap (λ q. count q t.kmem.freelist) is
            ∙ ground (arith, less (table_of s pgdir i), v.tables_held i lt there')
      ];
    }

added-pte :
    (s t : Vm) (pgdir p page : ℕ) (rest : List ℕ) (va : ℕ)
    → IsTables s pgdir
    → IsAdded s t pgdir p page rest
    → pte t pgdir va ≡ pte s pgdir va
added-pte s t pgdir p page rest va v a = elim (Bool-cases (p == pdx va)) [
  | inl e ↦
      let at : p ≡ pdx va = ground (arith, e) in
      let here : has_table t pgdir (pdx va) ≡ true =
        ap (λ i. has_table t pgdir i) (sym at) ∙ a.here in
      let was : has_table s pgdir (pdx va) ≡ false =
        ap (λ i. has_table s pgdir i) (sym at) ∙ a.none in
      let is : table_of t pgdir (pdx va) ≡ page = ap (λ i. table_of t pgdir i) (sym at) ∙ a.names in
      rw (here, was) (ap (λ b. t.words b (ptx va)) is ∙ a.zeros (ptx va))
  | inr e ↦
      let ne : p ≢ pdx va = ground (arith, e) in
      rw (a.entries (pdx va) ne) (elim (Bool-cases (has_table s pgdir (pdx va))) [
        | inr none' ↦ rw none' refl
        | inl there ↦ rw there (
            a.others (table_of s pgdir (pdx va)) (ptx va)
              (λ z. v.no_loop (pdx va) (omega arith) there (sym z))
              (not_new s t pgdir p page rest (pdx va) v a (omega arith) there))
      ])
]

-- The entry of `va` is in `page`; the translation is as it was, and no page became free.
pub record IsWalked (s t : Vm) (pgdir va page : ℕ) : Type 0 where
  pub tables : IsTables t pgdir
  pub there : has_table t pgdir (pdx va) ≡ true
  pub at : table_of t pgdir (pdx va) ≡ page
  pub same : (a : ℕ) → pte t pgdir a ≡ pte s pgdir a
  pub free : (q : ℕ) → count q t.kmem.freelist ≤ count q s.kmem.freelist

add_table-IsAdded :
    (s : Vm) (k : Kmem) (pgdir va page : ℕ) (rest : List ℕ)
    → IsTables s pgdir
    → has_table s pgdir (pdx va) ≡ false
    → s.kmem.freelist ≡ page ∷ rest
    → k.freelist ≡ rest
    → IsAdded s (add_table pgdir va page (record s { kmem = k })) pgdir (pdx va) page rest
add_table-IsAdded s k pgdir va page rest v absent free left =
    let pos : 0 < count page s.kmem.freelist = rw (free, ==_refl page) (omega arith) in
    let (whole, lo, hi) = v.pages page pos in
    let ne : page ≢ pgdir =
      λ z. absurd (omega (arith, pos, v.dir_held, ap (λ q. count q s.kmem.freelist) z)) in
    let apart : (page == pgdir) ≡ false = ne→==_false page pgdir ne in
    let apart' : (pgdir == page) ≡ false = ne→==_false pgdir page (λ z. ne (sym z)) in
    record {
      free = free;
      left = left;
      none = absent;
      here = rw (==_refl pgdir, ==_refl (pdx va)) (ground (arith, whole));
      names = rw (==_refl pgdir, ==_refl (pdx va)) (table-entry page whole lo hi);
      entries = λ i ne'. rw (==_refl pgdir, ne→==_false (pdx va) i ne', apart) refl;
      zeros = λ j. rw (apart', ==_refl page) refl;
      others = λ b j nd np. rw (ne→==_false pgdir b nd, ne→==_false page b np) refl;
    }

pub walk_alloc :
    (s : Vm) (pgdir va : ℕ)
    → IsTables s pgdir
    → ((walkpgdir pgdir va true s ≡ (none, s)) × (s.kmem.freelist ≡ []))
      ⊎ ((page : ℕ) × (t : Vm) × (walkpgdir pgdir va true s ≡ (some (page, ptx va), t))
          × IsWalked s t pgdir va page)
unfolding walkpgdir
walk_alloc s pgdir va v = elim (Bool-cases (has_table s pgdir (pdx va))) [
  | inl there ↦ inr (
    table_of s pgdir (pdx va),
    s,
    rw there refl,
    record { tables = v; there = there; at = refl; same = λ a. refl; free = λ q. omega arith },
  )
  | inr absent ↦ elim (kalloc-cases s.kmem) [
    | inl (free, eq) ↦ inl (rw (absent, eq) refl, free)
    | inr (page, rest, free, eq) ↦
        let k = record s.kmem { freelist = rest } in
        let t = add_table pgdir va page (record s { kmem = k }) in
        let a = add_table-IsAdded s k pgdir va page rest v absent free refl in
        inr (
          page,
          t,
          rw (absent, eq) refl,
          record {
            tables = added-IsTables s t pgdir (pdx va) page rest v a;
            there = a.here;
            at = a.names;
            same = λ b. added-pte s t pgdir (pdx va) page rest b v a;
            free = λ q. omega (arith, fewer s t pgdir (pdx va) page rest q a);
          },
        )
  ]
]

pub walk_find :
    (s : Vm) (pgdir va : ℕ)
    → walkpgdir pgdir va false s
      ≡ (if has_table s pgdir (pdx va) then some (table_of s pgdir (pdx va), ptx va) else none, s)
unfolding walkpgdir
walk_find s pgdir va = elim (Bool-cases (has_table s pgdir (pdx va))) [
  | inl there ↦ rw there refl
  | inr absent ↦ rw absent refl
]
