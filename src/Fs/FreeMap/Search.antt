-- ===== src/Fs/FreeMap/Search.antt =====
-- The two loops of `balloc` (fs.c) find the first free block.
use ducko_unix.Prelude.{
  ℕ, zero, suc, ◌+◌, ◌*◌, ◌/◌, ◌%◌, ◌<◌, ◌≤◌, ltb, ◌==◌, ◌≡◌, ◌≢◌, arith, ap, ◌∙◌, subst,
  Bool-cases, Option-cases, inl, inr, Option, some, none,
}
use ducko_unix.Fs.FreeMap.{bit, Disk, Super, bpb, bblock, scan, scan_blocks}
use ducko_unix.Fs.FreeMap.Bits.{used}

-- The first free block at or above `from`, or none below `end`.
abbrev pub IsFirst : Super → Disk → ℕ → ℕ → Option ℕ → Type 0
IsFirst sb d from end none = (m : ℕ) → from ≤ m → m < end → m < sb.size → used sb d m ≢ 0
IsFirst sb d from end (some n) =
    (from ≤ n)
    × (n < end)
    × (n < sb.size)
    × (used sb d n ≡ 0)
    × ((m : ℕ) → from ≤ m → m < n → used sb d m ≢ 0)

-- What is known beyond a stretch without free blocks.
beyond :
    (sb : Super) (d : Disk) (from mid end : ℕ) (r : Option ℕ)
    → from ≤ mid
    → IsFirst sb d from mid none
    → IsFirst sb d mid end r
    → IsFirst sb d from end r
beyond sb d from mid end none le low high = λ m lo hi small. elim (Bool-cases (ltb m mid)) [
  | inl before ↦ low m lo (ground (arith, before)) small
  | inr after ↦ high m (ground (arith, after)) hi small
]
beyond sb d from mid end (some n) le low (lo, hi, small, free, first) = (
  omega arith,
  hi,
  small,
  free,
  λ m lo' hi'. elim (Bool-cases (ltb m mid)) [
    | inl before ↦ low m lo' (ground (arith, before)) (omega arith)
    | inr after ↦ first m (ground (arith, after)) hi'
  ],
)

one_taken : (sb : Super) (d : Disk) (b : ℕ) → used sb d b ≢ 0 → IsFirst sb d b (b + 1) none
one_taken sb d b taken =
    λ m lo hi small. let here : b ≡ m = omega arith in subst (λ k. used sb d k ≢ 0) here taken

-- The end of the map is the end of the search.
nothing_left : (sb : Super) (d : Disk) (from end : ℕ) → sb.size ≤ from → IsFirst sb d from end none
nothing_left sb d from end past = λ m lo hi small. absurd (omega arith)

scan-IsFirst :
    (sb : Super) (d : Disk) (b bi k : ℕ)
    → b % bpb ≡ 0
    → bi + k ≤ bpb
    → IsFirst sb d (b + bi) (b + bi + k) (scan sb d b bi k)
unfolding scan
scan-IsFirst sb d b bi zero whole fits = λ m lo hi. absurd (omega arith)
scan-IsFirst sb d b bi (suc k) whole fits = elim (Bool-cases (ltb (b + bi) sb.size)) [
  | inr past ↦ rw past (nothing_left sb d (b + bi) (b + bi + suc k) (ground (arith, past)))
  | inl inside ↦
      let block : bblock sb b ≡ bblock sb (b + bi) = omega arith in
      let place : bi ≡ (b + bi) % bpb = omega arith in
      let same : bit (d (bblock sb b) (bi / 8)) (bi % 8) ≡ used sb d (b + bi) =
        ap (λ k. bit (d k (bi / 8)) (bi % 8)) block
        ∙ ap (λ i. bit (d (bblock sb (b + bi)) (i / 8)) (i % 8)) place in
      let low : b + (bi + 1) ≡ b + bi + 1 = omega arith in
      let high : b + (bi + 1) + k ≡ b + bi + suc k = omega arith in
      let rest : IsFirst sb d (b + bi + 1) (b + bi + suc k) (scan sb d b (bi + 1) k) =
        subst (λ l. IsFirst sb d l (b + bi + suc k) (scan sb d b (bi + 1) k)) low
          (subst (λ h. IsFirst sb d (b + (bi + 1)) h (scan sb d b (bi + 1) k)) high
            (scan-IsFirst sb d b (bi + 1) k whole (omega arith))) in
      rw (inside, same)
        (elim (Bool-cases (used sb d (b + bi) == 0)) [
          | inl free ↦ rw free (
            omega arith,
            omega arith,
            ground (arith, inside),
            ground (arith, free),
            λ m lo hi. absurd (omega arith),
          )
          | inr taken ↦ rw taken (
              beyond sb d (b + bi) (b + bi + 1) (b + bi + suc k) (scan sb d b (bi + 1) k)
                (omega arith) (one_taken sb d (b + bi) (ground (arith, taken))) rest)
        ])
]

pub scan_blocks-IsFirst :
    (sb : Super) (d : Disk) (b fuel : ℕ)
    → b % bpb ≡ 0
    → IsFirst sb d b (b + fuel * bpb) (scan_blocks sb d b fuel)
unfolding scan_blocks
scan_blocks-IsFirst sb d b zero whole = λ m lo hi. absurd (omega arith)
scan_blocks-IsFirst sb d b (suc fuel) whole = elim (Bool-cases (ltb b sb.size)) [
  | inr past ↦ rw past (nothing_left sb d b (b + suc fuel * bpb) (ground (arith, past)))
  | inl inside ↦
      let start : b + 0 ≡ b = omega arith in
      let end : b + 0 + bpb ≡ b + bpb = omega arith in
      let here : IsFirst sb d b (b + bpb) (scan sb d b 0 bpb) =
        subst (λ l. IsFirst sb d l (b + bpb) (scan sb d b 0 bpb)) start
          (subst (λ h. IsFirst sb d (b + 0) h (scan sb d b 0 bpb)) end
            (scan-IsFirst sb d b 0 bpb whole (omega arith))) in
      let high : b + bpb + fuel * bpb ≡ b + suc fuel * bpb = omega arith in
      let rest : IsFirst sb d (b + bpb) (b + suc fuel * bpb) (scan_blocks sb d (b + bpb) fuel) =
        subst (λ h. IsFirst sb d (b + bpb) h (scan_blocks sb d (b + bpb) fuel)) high
          (scan_blocks-IsFirst sb d (b + bpb) fuel (omega arith)) in
      rw inside (elim (Option-cases (scan sb d b 0 bpb)) [
        | inl e ↦ rw e (
            beyond sb d b (b + bpb) (b + suc fuel * bpb) (scan_blocks sb d (b + bpb) fuel)
              (omega arith) (subst (λ r. IsFirst sb d b (b + bpb) r) e here) rest)
        | inr (n, e) ↦
            let (lo, hi, small, free, first) = subst (λ r. IsFirst sb d b (b + bpb) r) e here in
            rw e (lo, omega arith, small, free, first)
      ])
]
