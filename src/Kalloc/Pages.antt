-- ===== src/Kalloc/Pages.antt =====
-- What the allocator of kalloc.c promises: pages are whole, in bounds and free once.
use ducko_unix.Prelude.{
  ℕ, zero, suc, ◌+◌, ◌*◌, ◌/◌, ◌%◌, ◌<◌, ◌≤◌, leb, ◌==◌, ◌≡◌, refl, subst, Bool, true, ◌&&◌, ◌∙◌,
  List, [], ◌∷◌, if◌then◌else◌, arith, Bool-cases, inl, inr, done, Option, none, some, All, ◌⊎◌,
}
use ducko_unix.Kalloc.{
  page_size, Kmem, is_page, kfree, kalloc, page_round_up, free_pages, freerange,
}

abbrev pub count : ℕ → List ℕ → ℕ
count v [] = 0
count v (x ∷ xs) = (if x == v then 1 else 0) + count v xs

abbrev pub AllPages : ℕ → List ℕ → Type 0
AllPages kernel_end pages = All (λ v. is_page kernel_end v ≡ true) pages

-- The free pages and those that callers hold are pages above the kernel, each one only once.
pub record IsDivided (kernel_end : ℕ) (s : Kmem) (held : List ℕ) : Type 0 where
  pub free_pages : AllPages kernel_end s.freelist
  pub held_pages : AllPages kernel_end held
  pub once : (v : ℕ) → count v s.freelist + count v held ≤ 1

abbrev pub remove : ℕ → List ℕ → List ℕ
remove v [] = []
remove v (x ∷ xs) = if x == v then xs else x ∷ remove v xs

count-remove :
    (v w : ℕ) (xs : List ℕ)
    → 0 < count v xs
    → count w xs ≡ (if v == w then 1 else 0) + count w (remove v xs)
count-remove v w [] h = absurd (omega arith)
count-remove v w (x ∷ xs) h = elim (Bool-cases (x == v)) [
  | inl here ↦ ground (arith, here)
  | inr there ↦
      let rest = count-remove v w xs (ground (arith, there)) in rw there (ground (arith, rest))
]

remove-AllPages : (k v : ℕ) (xs : List ℕ) → AllPages k xs → AllPages k (remove v xs)
remove-AllPages k v [] all = tt
remove-AllPages k v (x ∷ xs) (h, all) = ground (arith, remove-AllPages k v xs all)

held-page : (k v : ℕ) (xs : List ℕ) → AllPages k xs → 0 < count v xs → is_page k v ≡ true
held-page k v [] all h = absurd (omega arith)
held-page k v (x ∷ xs) (page, all) h = elim (Bool-cases (x == v)) [
  | inl here ↦ let at : x ≡ v = ground (arith, here) in subst (λ w. is_page k w ≡ true) at page
  | inr there ↦ held-page k v xs all (ground (arith, there))
]

-- The outcome of a call, and what holds afterwards.
abbrev pub Allocated : ℕ → Kmem → List ℕ → Option ℕ × Kmem → Type 0
Allocated kernel_end s held r =
    ((r ≡ (none, s)) × (s.freelist ≡ []))
    ⊎ ((v : ℕ) × (t : Kmem) × (r ≡ (some v, t))
        × (count v held ≡ 0)
        × (is_page kernel_end v ≡ true)
        × IsDivided kernel_end t (v ∷ held))

allocated :
    (k : ℕ) (u : Bool) (free held : List ℕ)
    → (let s : Kmem = record { use_lock = u; freelist = free } in
        IsDivided k s held → Allocated k s held (kalloc s))
unfolding kalloc
allocated k u [] held d = inl (refl, refl)
allocated k u (v ∷ rest) held d = inr (
  v,
  record { use_lock = u; freelist = rest },
  refl,
  (let one = d.once v in ground (arith, one)),
  d.free_pages.0,
  record {
    free_pages = d.free_pages.1;
    held_pages = (d.free_pages.0, d.held_pages);
    once = λ w. let one = d.once w in ground (arith, one);
  },
)

-- Where free and held pages are pages above the kernel, each only once, so they stay: `kalloc`
-- fails only when no page is free; a page it returns is one that no caller holds.
pub kalloc_lem :
    (kernel_end : ℕ) (s : Kmem) (held : List ℕ)
    → IsDivided kernel_end s held
    → Allocated kernel_end s held (kalloc s)
kalloc_lem k s held d = allocated k s.use_lock s.freelist held d

-- Under the same condition, which it keeps, `kfree` of a page that its caller holds does not
-- panic, and makes it free.
pub kfree_lem :
    (kernel_end v : ℕ) (s : Kmem) (held : List ℕ)
    → IsDivided kernel_end s held
    → 0 < count v held
    → (t : Kmem) × (kfree kernel_end v s ≡ done t)
      × (t.freelist ≡ v ∷ s.freelist)
      × IsDivided kernel_end t (remove v held)
unfolding kfree
kfree_lem k v s held d owned =
    let page = held-page k v held d.held_pages owned in
    (
      record s { freelist = v ∷ s.freelist },
      rw page refl,
      refl,
      record {
        free_pages = (page, d.free_pages);
        held_pages = remove-AllPages k v held d.held_pages;
        once = λ w.
            let one = d.once w in
            let less = count-remove v w held owned in ground (arith, one, less);
      },
    )

-- The pages from `p` on that end by `vend`.
abbrev pub in_range : ℕ → ℕ → ℕ → Bool
in_range p vend v = leb p v && leb (v + page_size) vend && v % page_size == 0

free_pages_lem :
    (kernel_end fuel p vend : ℕ) (s : Kmem)
    → p % page_size ≡ 0
    → vend < p + fuel * page_size
    → ((v : ℕ) → in_range p vend v ≡ true → is_page kernel_end v ≡ true)
    → (t : Kmem) × (free_pages kernel_end fuel p vend s ≡ done t)
      × ((v : ℕ) → count v t.freelist ≡ (if in_range p vend v then 1 else 0) + count v s.freelist)
      × (AllPages kernel_end s.freelist → AllPages kernel_end t.freelist)
unfolding free_pages kfree
free_pages_lem kernel_end zero p vend s whole enough pages = (s, refl, λ v. ground arith, λ h. h)
free_pages_lem kernel_end (suc fuel) p vend s whole enough pages =
    elim (Bool-cases (leb (p + page_size) vend)) [
      | inl more ↦
          let here : is_page kernel_end p ≡ true = pages p (ground (arith, more, whole)) in
          let (t, e, counts, all) =
            free_pages_lem kernel_end fuel (p + page_size) vend
              (record s { freelist = p ∷ s.freelist }) (omega arith) (omega arith)
              (λ v h. pages v (ground arith)) in
          (
            t,
            rw more (rw here e),
            λ v. let c = counts v in ground (arith, c, whole, more),
            λ h. all (here, h),
          )
      | inr over ↦ (s, rw over refl, λ v. ground (arith, over, whole), λ h. h)
    ]

-- `freerange` does not panic on pages of the memory above the kernel, and makes free each page that
-- lies whole within the range, once, and nothing else.
pub freerange_lem :
    (kernel_end vstart vend : ℕ) (s : Kmem)
    → ((v : ℕ) → in_range vstart vend v ≡ true → is_page kernel_end v ≡ true)
    → (t : Kmem) × (freerange kernel_end vstart vend s ≡ done t)
      × ((v : ℕ)
          → count v t.freelist ≡ (if in_range vstart vend v then 1 else 0) + count v s.freelist)
      × (AllPages kernel_end s.freelist → AllPages kernel_end t.freelist)
unfolding freerange
freerange_lem k vstart vend s pages =
    let p = page_round_up vstart in
    let whole : p % page_size ≡ 0 = omega arith in
    let up : vstart ≤ p = omega arith in
    let near : p < vstart + page_size = omega arith in
    let (t, e, counts, all) =
      free_pages_lem k (suc (vend / page_size)) p vend s whole (omega arith)
        (λ v h. pages v (ground (arith, up))) in
    (t, e, λ v. counts v ∙ ground (arith, up, near, whole), all)
