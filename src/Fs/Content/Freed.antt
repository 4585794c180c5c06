-- ===== src/Fs/Content/Freed.antt =====
-- `itrunc` (fs.c) frees the blocks of an inode, and no others.
use ducko_unix.Prelude.{
  ℕ, zero, suc, ◌+◌, ◌<◌, ◌≤◌, ltb, ◌==◌, ◌≡◌, ◌≢◌, refl, done, arith, ap, ◌∙◌, sym, subst, fun_ext,
  Bool-cases, inl, inr, ne→==_false, ==_refl, ◌>>=◌,
}
use ducko_unix.Fs.FreeMap.{Disk, Super, bblock}
use ducko_unix.Fs.FreeMap.Bits.{used}
use ducko_unix.Fs.FreeMap.Alloc.{bfree_lem, bfree-others}
use ducko_unix.Fs.Content.{free_one, free_all}

-- The blocks `f lo`, ... , `f (hi - 1)` are free, and nothing else changed in the map.
pub record IsFreed (sb : Super) (f : ℕ → ℕ) (lo hi : ℕ) (d e : Disk) : Type 0 where
  pub gone : (j : ℕ) → lo ≤ j → j < hi → f j ≢ 0 → used sb e (f j) ≡ 0
  pub kept : (m : ℕ) → ((j : ℕ) → lo ≤ j → j < hi → f j ≢ 0 → f j ≢ m) → used sb e m ≡ used sb d m
  -- the blocks that do not hold the map
  pub others : (b : ℕ) → ((j : ℕ) → lo ≤ j → j < hi → f j ≢ 0 → bblock sb (f j) ≢ b) → e b ≡ d b

-- The entries have used blocks, each in one place.
pub record IsTidy (sb : Super) (f : ℕ → ℕ) (lo hi : ℕ) (d : Disk) : Type 0 where
  pub marked : (j : ℕ) → lo ≤ j → j < hi → f j ≢ 0 → used sb d (f j) ≢ 0
  pub apart : (j l : ℕ) → lo ≤ j → j < hi → lo ≤ l → l < hi → f j ≢ 0 → f j ≡ f l → j ≡ l

pub none-IsFreed :
    (sb : Super) (f : ℕ → ℕ) (lo hi : ℕ) (d : Disk)
    → ((j : ℕ) → lo ≤ j → j < hi → f j ≡ 0)
    → IsFreed sb f lo hi d d
none-IsFreed sb f lo hi d zeros = record {
  gone = λ j l h nz. absurd (nz (zeros j l h));
  kept = λ m h. refl;
  others = λ b h. refl;
}

pub free_one-IsFreed :
    (sb : Super) (f : ℕ → ℕ) (i hi : ℕ) (d : Disk)
    → i < hi
    → IsTidy sb f i hi d
    → (e : Disk) × (free_one sb (f i) d ≡ done e) × IsFreed sb f i (i + 1) d e
unfolding free_one
free_one-IsFreed sb f i hi d lt v = elim (Bool-cases (f i == 0)) [
  | inl empty ↦ (
    d,
    rw empty refl,
    none-IsFreed sb f i (i + 1) d
        (λ j l h. let at : i ≡ j = omega arith in ap f (sym at) ∙ ground (arith, empty)),
  )
  | inr there ↦
      let nz : f i ≢ 0 = λ z. absurd (ground (arith, there, z)) in
      elim (bfree_lem sb (f i) d) [
        | inl (free, _) ↦ absurd (v.marked i (omega arith) lt nz free)
        | inr (e, _, eq, map) ↦ (
          e,
          rw there eq,
          record {
            gone = λ j l h nz'.
                let at : i ≡ j = omega arith in
                subst (λ j. used sb e (f j) ≡ 0) at (map (f i) ∙ rw (==_refl (f i)) refl);
            kept =
                λ m h. map m ∙ rw (ne→==_false (f i) m (h i (omega arith) (omega arith) nz)) refl;
            others = λ b h. bfree-others sb (f i) d e eq b (h i (omega arith) (omega arith) nz);
          },
        )
      ]
]

-- The entries after those that are freed.
pub rest-IsTidy :
    (sb : Super) (f : ℕ → ℕ) (lo mid hi : ℕ) (d e : Disk)
    → lo ≤ mid
    → mid ≤ hi
    → IsTidy sb f lo hi d
    → IsFreed sb f lo mid d e
    → IsTidy sb f mid hi e
rest-IsTidy sb f lo mid hi d e le le' v w = record {
  marked = λ j l h nz z. v.marked j (omega arith) h nz (
      sym (
        w.kept (f j) (λ k l' h' nz' same.
          absurd (omega (arith, l, h', v.apart k j l' (omega arith) (omega arith) h nz' same))))
      ∙ z);
  apart = λ j k l h l' h' nz same. v.apart j k (omega arith) h (omega arith) h' nz same;
}

pub both-IsFreed :
    (sb : Super) (f : ℕ → ℕ) (lo mid hi : ℕ) (d e g : Disk)
    → lo ≤ mid
    → mid ≤ hi
    → IsTidy sb f lo hi d
    → IsFreed sb f lo mid d e
    → IsFreed sb f mid hi e g
    → IsFreed sb f lo hi d g
both-IsFreed sb f lo mid hi d e g le le' v w x = record {
  gone = λ j l h nz. elim (Bool-cases (ltb j mid)) [
    | inl before ↦
        let lt : j < mid = ground (arith, before) in
        x.kept (f j) (λ k l' h' nz' same.
          absurd (omega (arith, lt, l', v.apart k j (omega arith) h' l h nz' same)))
        ∙ w.gone j l lt nz
    | inr after ↦ x.gone j (ground (arith, after)) h nz
  ];
  kept =
      λ m h. x.kept m (λ j l h'. h j (omega arith) h') ∙ w.kept m (λ j l h'. h j l (omega arith));
  others = λ b h.
      x.others b (λ j l h'. h j (omega arith) h') ∙ w.others b (λ j l h'. h j l (omega arith));
}

pub start-IsTidy :
    (sb : Super) (f : ℕ → ℕ) (lo mid hi : ℕ) (d : Disk)
    → mid ≤ hi
    → IsTidy sb f lo hi d
    → IsTidy sb f lo mid d
start-IsTidy sb f lo mid hi d le v = record {
  marked = λ j l h. v.marked j l (omega arith);
  apart = λ j k l h l' h'. v.apart j k l (omega arith) l' (omega arith);
}

pub free_all-IsFreed :
    (sb : Super) (f : ℕ → ℕ) (i k : ℕ) (d : Disk)
    → IsTidy sb f i (i + k) d
    → (e : Disk) × (free_all sb f i k d ≡ done e) × IsFreed sb f i (i + k) d e
unfolding free_all
free_all-IsFreed sb f i zero d v =
    (d, refl, none-IsFreed sb f i (i + 0) d (λ j l h. absurd (omega arith)))
free_all-IsFreed sb f i (suc k) d v =
    let end : i + 1 + k ≡ i + suc k = omega arith in
    let (e, eq, w) = free_one-IsFreed sb f i (i + suc k) d (omega arith) v in
    let rest = rest-IsTidy sb f i (i + 1) (i + suc k) d e (omega arith) (omega arith) v w in
    let (g, eq', x) =
      free_all-IsFreed sb f (i + 1) k e (subst (λ h. IsTidy sb f (i + 1) h e) (sym end) rest) in
    (
      g,
      rw eq eq',
      both-IsFreed sb f i (i + 1) (i + suc k) d e g (omega arith) (omega arith) v w
          (subst (λ h. IsFreed sb f (i + 1) h e g) end x),
    )

pub free_all_same :
    (sb : Super) (f g : ℕ → ℕ) (o i k : ℕ) (d : Disk)
    → ((j : ℕ) → i ≤ j → j < i + k → f j ≡ g (o + j))
    → free_all sb f i k d ≡ free_all sb g (o + i) k d
unfolding free_all
free_all_same sb f g o i zero d h = refl
free_all_same sb f g o i (suc k) d h = rw (h i (omega arith) (omega arith)) (
    ap (λ m. free_one sb (g (o + i)) d >>= m)
      (fun_ext (λ e.
        free_all_same sb f g o (i + 1) k e (λ j l h'. h j (omega arith) (omega arith))
        ∙ ap (λ i. free_all sb g i k e) (let a : o + (i + 1) ≡ o + i + 1 = omega arith in a))))
