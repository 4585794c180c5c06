-- ===== src/Vm/Sample.antt =====
-- An address space of one page at 4096, with one table and two free pages (vm.c).
use ducko_unix.Prelude.{
  ℕ, ◌/◌, ◌<◌, ◌==◌, ◌≡◌, refl, true, false, [], ◌∷◌, if◌then◌else◌, arith, ap, ◌∙◌, sym,
  Bool-cases, inl, inr, ◌⊎◌,
}
use ducko_unix.Kalloc.{page_size, kernbase, is_page}
use ducko_unix.Kalloc.Pages.{count}
use ducko_unix.Vm.{Vm, pte_addr, pdx, ptx, present, table}
use ducko_unix.Vm.Entries.{pte, has_table, table_of, IsTables}
use ducko_unix.Vm.Space.{is_mapped, IsSpace}

-- The directory, its table, the page of the user, and the free pages.
abbrev pub dir : ℕ
dir = 2151677952

abbrev pub tab : ℕ
tab = 2151682048

abbrev user : ℕ
user = 2151686144

abbrev pub words : ℕ → ℕ → ℕ
words b i =
    if b == dir
    then (if i == 0 then 4198407 else 0)
    else if b == tab
    then (if i == 1 then 4202503 else 0)
    else 0

abbrev pub small : Vm
small = record {
  kmem = record { use_lock = true; freelist = 2151690240 ∷ 2151694336 ∷ [] };
  words = words;
}

has_table-zero : (i : ℕ) → has_table small dir i ≡ true → i ≡ 0
has_table-zero i h = elim (Bool-cases (i == 0)) [
  | inl e ↦ ground (arith, e)
  | inr e ↦ absurd (ground (arith, e, h))
]

table_of-tab : (i : ℕ) → has_table small dir i ≡ true → table_of small dir i ≡ tab
table_of-tab i h = ap (λ i. table_of small dir i) (has_table-zero i h)

pub small-IsTables : IsTables small dir
small-IsTables = record {
  no_loop = λ i lt h z. absurd (omega (arith, table_of-tab i h, z));
  apart = λ i j li lj hi hj z. has_table-zero i hi ∙ sym (has_table-zero j hj);
  pages = λ v pos. (ground (arith, pos), ground (arith, pos), ground (arith, pos));
  once = λ v. ground arith;
  dir_held = refl;
  tables_held = λ i lt h. ap (λ p. count p small.kmem.freelist) (table_of-tab i h);
}

pub pte-cases :
    (x : ℕ) → ((pte small dir x ≡ 4202503) × (pdx x ≡ 0) × (ptx x ≡ 1)) ⊎ (pte small dir x ≡ 0)
pte-cases x = elim (Bool-cases (pdx x == 0)) [
  | inr far ↦ inr (rw far refl)
  | inl first ↦ elim (Bool-cases (ptx x == 1)) [
    | inr other ↦ inr (rw (first, other) refl)
    | inl here ↦ inl (rw (first, here) refl, ground (arith, first), ground (arith, here))
  ]
]

mapped-entry :
    (x : ℕ) → is_mapped small dir x ≡ true → (pte small dir x ≡ 4202503) × (pdx x ≡ 0) × (ptx x ≡ 1)
mapped-entry x h = elim (pte-cases x) [
  | inl here ↦ here
  | inr none_here ↦
      let no : is_mapped small dir x ≡ false = ap (λ e. present e) none_here in
      absurd (ground (arith, h, no))
]

mapped-one : (x : ℕ) → x < kernbase → is_mapped small dir x ≡ true → x / page_size ≡ 1
mapped-one x lt h = let (_, d, i) = mapped-entry x h in omega (arith, lt, d, i)

page_of-user : (x : ℕ) → x < kernbase → is_mapped small dir x ≡ true → pte small dir x ≡ 4202503
page_of-user x lt h = (mapped-entry x h).0

pub small-IsSpace : IsSpace 2148532224 small dir
small-IsSpace = record {
  tables = small-IsTables;
  whole = λ x lt h. ap (λ e. is_page 2148532224 (table e)) (page_of-user x lt h);
  real = λ x lt h z. absurd (omega (arith, ap (λ e. pte_addr e) (page_of-user x lt h), z));
  held = λ x lt h. ap (λ e. count (table e) small.kmem.freelist) (page_of-user x lt h);
  no_dir = λ x lt h z. absurd (omega (arith, ap (λ e. table e) (page_of-user x lt h), z));
  no_table = λ x i lt li h h' z.
      absurd (omega (arith, ap (λ e. table e) (page_of-user x lt h), table_of-tab i h', z));
  once = λ x y lx ly hx hy z. mapped-one x lx hx ∙ sym (mapped-one y ly hy);
}
