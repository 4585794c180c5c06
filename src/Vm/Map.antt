-- ===== src/Vm/Map.antt =====
-- `mappages` (vm.c) maps the pages of a range and changes no other translation.
use ducko_unix.Prelude.{
  ℕ, zero, suc, ◌+◌, ◌-◌, ◌*◌, ◌/◌, ◌%◌, ◌<◌, ◌≤◌, ltb, leb, ◌==◌, ◌≡◌, refl, Bool, true, false,
  ◌&&◌, [], if◌then◌else◌, Outcome, done, arith, ap, ◌∙◌, sym, subst, Bool-cases, inl, inr, ◌⊎◌,
}
use ducko_unix.Kalloc.{page_size}
use ducko_unix.Vm.{Vm, word, page_round_down, ptx, present, store, map_loop, mappages}
use ducko_unix.Vm.Entries.{pte, IsTables}
use ducko_unix.Vm.Walk.{IsWalked, walk_alloc}
use ducko_unix.Vm.Store.{store-IsTables, pte-store}

-- The entry that `mappages` makes for the page of `x`.
abbrev pub entry : ℕ → ℕ → ℕ → ℕ → ℕ
entry a pa perm x = (pa + (x / page_size - a / page_size) * page_size) % word + (perm / 2 * 2 + 1)

-- `n` pages from `a` on are mapped to those from `pa` on.
pub record IsMapped (s t : Vm) (pgdir a n pa perm : ℕ) : Type 0 where
  pub tables : IsTables t pgdir
  pub entries :
      (x : ℕ)
      → x < word
      → pte t pgdir x
        ≡ (if leb a x && ltb x (a + n * page_size) then entry a pa perm x else pte s pgdir x)

abbrev pub AllAbsent : Vm → ℕ → ℕ → ℕ → Type 0
AllAbsent s pgdir a n = (x : ℕ) → a ≤ x → x < a + n * page_size → present (pte s pgdir x) ≡ false

none-IsMapped : (s : Vm) (pgdir a pa perm : ℕ) → IsTables s pgdir → IsMapped s s pgdir a 0 pa perm
none-IsMapped s pgdir a pa perm v = record {
  tables = v;
  entries = λ x lt.
      let test : (leb a x && ltb x (a + 0 * page_size)) ≡ false = ground arith in rw test refl;
}

-- One page, and then the others.
both-IsMapped :
    (s u t : Vm) (pgdir a n pa perm : ℕ)
    → a % page_size ≡ 0
    → pa < word
    → ((x : ℕ)
        → x < word
        → pte u pgdir x
          ≡ (if a / page_size == x / page_size then pa + (perm / 2 * 2 + 1) else pte s pgdir x))
    → IsMapped u t pgdir (a + page_size) n ((pa + page_size) % word) perm
    → IsMapped s t pgdir a (suc n) pa perm
both-IsMapped s u t pgdir a n pa perm whole small first v = record {
  tables = v.tables;
  entries = λ x lt. v.entries x lt ∙ elim (Bool-cases (a / page_size == x / page_size)) [
    | inl e ↦
        let after : (leb (a + page_size) x && ltb x (a + page_size + n * page_size)) ≡ false =
          ground (arith, e, whole) in
        let within : (leb a x && ltb x (a + suc n * page_size)) ≡ true = ground (arith, e, whole) in
        let same : pa + (perm / 2 * 2 + 1) ≡ entry a pa perm x = ground (arith, e, small) in
        rw (after, within) (first x lt ∙ rw e same)
    | inr e ↦ elim (Bool-cases (leb (a + page_size) x && ltb x (a + page_size + n * page_size))) [
      | inl i ↦
          let within : (leb a x && ltb x (a + suc n * page_size)) ≡ true = ground (arith, i) in
          let same : entry (a + page_size) ((pa + page_size) % word) perm x ≡ entry a pa perm x =
            let above : a + page_size ≤ x = ground (arith, i) in omega (arith, above, whole) in
          rw (i, within) same
      | inr o ↦
          let outside : (leb a x && ltb x (a + suc n * page_size)) ≡ false =
            ground (arith, o, e, whole) in
          rw (o, outside) (first x lt ∙ rw e refl)
    ]
  ];
}

-- What the loop comes to: all pages are mapped, or the free pages ran out after `m` of them.
abbrev pub Mapping : Vm → ℕ → ℕ → ℕ → ℕ → ℕ → Outcome (Bool × Vm) → Type 0
Mapping s pgdir a n pa perm r =
    ((t : Vm) × (r ≡ done (true, t)) × IsMapped s t pgdir a n pa perm)
    ⊎ ((t : Vm) × (m : ℕ) × (r ≡ done (false, t))
        × (m < n)
        × (t.kmem.freelist ≡ [])
        × IsMapped s t pgdir a m pa perm)

one_page :
    (s t : Vm) (pgdir a pa perm page : ℕ)
    → a < word
    → IsWalked s t pgdir a page
    → (x : ℕ) → x < word
    → pte (store page (ptx a) (pa + (perm / 2 * 2 + 1)) t) pgdir x
      ≡ (if a / page_size == x / page_size then pa + (perm / 2 * 2 + 1) else pte s pgdir x)
one_page s t pgdir a pa perm page lt w x lt' =
    let v = pa + (perm / 2 * 2 + 1) in
    subst
      (λ p.
        pte (store p (ptx a) v t) pgdir x
        ≡ (if a / page_size == x / page_size then v else pte s pgdir x))
      w.at
      (pte-store t pgdir a v x w.tables w.there lt lt'
        ∙ ap (λ e. if a / page_size == x / page_size then v else e) (w.same x))

unused :
    (s t : Vm) (pgdir a page : ℕ)
    → IsWalked s t pgdir a page
    → present (pte s pgdir a) ≡ false
    → present (t.words page (ptx a)) ≡ false
unused s t pgdir a page w absent =
    let is : t.words page (ptx a) ≡ pte t pgdir a =
      rw w.there (ap (λ b. t.words b (ptx a)) (sym w.at)) in
    ap (λ e. present e) (is ∙ w.same a) ∙ absent

map_loop-Mapping :
    (fuel n : ℕ) (s : Vm) (pgdir a last pa perm : ℕ)
    → IsTables s pgdir
    → a % page_size ≡ 0
    → a + suc n * page_size ≤ word
    → last ≡ a + n * page_size
    → n < fuel
    → pa < word
    → AllAbsent s pgdir a (suc n)
    → Mapping s pgdir a (suc n) pa perm (map_loop fuel pgdir a last pa perm s)
unfolding map_loop
map_loop-Mapping zero n s pgdir a last pa perm v whole fits end enough small absent =
    absurd (omega arith)
map_loop-Mapping (suc fuel) n s pgdir a last pa perm v whole fits end enough small absent =
    elim (walk_alloc s pgdir a v) [
      | inl (eq, free) ↦
          inr (s, 0, rw (eq, map_loop) refl, omega arith, free, none-IsMapped s pgdir a pa perm v)
      | inr (page, t, eq, w) ↦
          let u = store page (ptx a) (pa + (perm / 2 * 2 + 1)) t in
          let lt : a < word = omega (arith, fits) in
          let first = one_page s t pgdir a pa perm page lt w in
          let tables : IsTables u pgdir =
            subst (λ p. IsTables (store p (ptx a) (pa + (perm / 2 * 2 + 1)) t) pgdir) w.at
              (store-IsTables t pgdir a (pa + (perm / 2 * 2 + 1)) w.tables w.there) in
          let free : present (t.words page (ptx a)) ≡ false =
            unused s t pgdir a page w (absent a (omega arith) (omega arith)) in
          rw (eq, map_loop, free)
            (elim (Bool-cases (a == last)) [
              | inl stop ↦ rw stop (
                  let last_one : n ≡ 0 = ground (arith, stop, end) in
                  inl (
                    u,
                    refl,
                    subst (λ k. IsMapped s u pgdir a (suc k) pa perm) (sym last_one)
                        (both-IsMapped s u u pgdir a 0 pa perm whole small first (
                          none-IsMapped u pgdir (a + page_size) ((pa + page_size) % word) perm
                            tables)),
                  ))
              | inr go ↦
                  let go_on : 0 < n = ground (arith, go, end) in
                  let prev : suc (n - 1) ≡ n = omega arith in
                  let rest =
                    map_loop-Mapping fuel (n - 1) u pgdir (a + page_size) last
                      ((pa + page_size) % word) perm tables (omega (arith, whole))
                      (omega (arith, fits, go_on)) (omega (arith, end, go_on))
                      (omega (arith, enough, go_on)) (omega arith)
                      (λ x lo hi.
                        let in_word : x < word = omega (arith, fits, go_on, hi) in
                        let other : (a / page_size == x / page_size) ≡ false = ground (arith, lo) in
                        ap (λ e. present e) (first x in_word ∙ rw other refl)
                        ∙ absent x (omega (arith, lo)) (omega (arith, hi, go_on))) in
                  let next : (a + page_size) % word ≡ a + page_size = omega (arith, fits, go_on) in
                  rw (go, next)
                    (elim rest [
                      | inl (x, eq', m) ↦ inl (
                        x,
                        eq',
                        both-IsMapped s u x pgdir a n pa perm whole small first (
                            subst
                              (λ k.
                                IsMapped u x pgdir (a + page_size) k ((pa + page_size) % word) perm)
                              prev m),
                      )
                      | inr (x, m, eq', fewer, none_free, mapped) ↦ inr (
                        x,
                        suc m,
                        eq',
                        omega (arith, fewer, prev),
                        none_free,
                        both-IsMapped s u x pgdir a m pa perm whole small first mapped,
                      )
                    ])
            ])
    ]

-- The number of pages that `size` bytes from `va` on touch.
abbrev pub pages : ℕ → ℕ → ℕ
pages va size = suc ((va + size - 1) / page_size - va / page_size)

-- `mappages` of a range that does not wrap around and has no mapping yet, to pages from a page
-- address on, with flags below 4096, does not panic. It maps
-- every page of the range to its page from `pa` on with the flags, or the free pages run out, and
-- then it returns -1 with the first pages of the range mapped; no address outside changes its
-- mapping, and the tables stay different pages that are not free.
pub mappages_lem :
    (s : Vm) (pgdir va size pa perm : ℕ)
    → IsTables s pgdir
    → 0 < size
    → va + size ≤ word
    → pa < word
    → pa % page_size ≡ 0
    → perm < page_size
    → AllAbsent s pgdir (page_round_down va) (pages va size)
    → Mapping s pgdir
        (page_round_down va)
        (pages va size)
        pa
        perm
        (mappages pgdir va size pa perm s)
unfolding mappages
mappages_lem s pgdir va size pa perm v pos fits small whole flags absent =
    let last = page_round_down ((va + size + word - 1) % word) in
    map_loop-Mapping (suc ((last + word - page_round_down va) % word / page_size))
      ((va + size - 1) / page_size - va / page_size) s pgdir (page_round_down va) last pa perm v
      (omega arith) (omega (arith, pos, fits)) (omega (arith, pos, fits)) (omega (arith, pos, fits))
      small absent
