-- ===== src/Fs/FreeMap/Bits.antt =====
-- One bit changes and no other, in a byte and in the map (fs.c).
use ducko_unix.Prelude.{
  ℕ, zero, suc, ◌+◌, ◌*◌, ◌/◌, ◌%◌, ◌==◌, ◌≡◌, refl, false, if◌then◌else◌, arith, ap, ◌∙◌, ==_refl,
  subst, Bool-cases, inl, inr,
}
use ducko_unix.Fs.FreeMap.{bit, set_bit, clear_bit, Disk, Super, bpb, bblock, store}

pub bit-set_bit : (x m j : ℕ) → bit (set_bit x m) j ≡ (if m == j then 1 else bit x j)
unfolding bit set_bit
bit-set_bit x zero zero = ground arith
bit-set_bit x zero (suc j) =
    let half : (x / 2 * 2 + 1) / 2 ≡ x / 2 = omega arith in rw half (ground arith)
bit-set_bit x (suc m) zero = ground arith
bit-set_bit x (suc m) (suc j) =
    let half : (set_bit (x / 2) m * 2 + x % 2) / 2 ≡ set_bit (x / 2) m = omega arith in
    rw half (ground (arith, bit-set_bit (x / 2) m j))

pub bit-clear_bit : (x m j : ℕ) → bit (clear_bit x m) j ≡ (if m == j then 0 else bit x j)
unfolding bit clear_bit
bit-clear_bit x zero zero = ground arith
bit-clear_bit x zero (suc j) =
    let half : x / 2 * 2 / 2 ≡ x / 2 = omega arith in rw half (ground arith)
bit-clear_bit x (suc m) zero = ground arith
bit-clear_bit x (suc m) (suc j) =
    let half : (clear_bit (x / 2) m * 2 + x % 2) / 2 ≡ clear_bit (x / 2) m = omega arith in
    rw half (ground (arith, bit-clear_bit (x / 2) m j))

-- The bit of a block in the map.
abbrev pub used : Super → Disk → ℕ → ℕ
used sb d b = bit (d (bblock sb b) (b % bpb / 8)) (b % bpb % 8)

-- A new value for the byte of block `n` that differs in the block's bit only.
pub used-store :
    (sb : Super) (d : Disk) (n m v w : ℕ)
    → ((j : ℕ) → bit v j ≡ (if n % bpb % 8 == j then w else bit (d (bblock sb n) (n % bpb / 8)) j))
    → used sb (store d (bblock sb n) (n % bpb / 8) v) m ≡ (if n == m then w else used sb d m)
used-store sb d n m v w h = elim (Bool-cases (n == m)) [
  | inl same ↦
      let here : n ≡ m = ground (arith, same) in
      let own : used sb (store d (bblock sb n) (n % bpb / 8) v) n ≡ w =
        rw (==_refl (bblock sb n), ==_refl (n % bpb / 8))
          (h (n % bpb % 8) ∙ rw (==_refl (n % bpb % 8)) refl) in
      rw same (subst (λ k. used sb (store d (bblock sb n) (n % bpb / 8) v) k ≡ w) here own)
  | inr apart ↦ rw apart (elim (Bool-cases (bblock sb n == bblock sb m)) [
    | inr far ↦ rw far refl
    | inl near ↦
        let block : bblock sb n ≡ bblock sb m = ground (arith, near) in
        rw near (elim (Bool-cases (n % bpb / 8 == m % bpb / 8)) [
          | inr far ↦ rw far (ap (λ b. bit (d b (m % bpb / 8)) (m % bpb % 8)) block)
          | inl near' ↦
              let byte : n % bpb / 8 ≡ m % bpb / 8 = ground (arith, near') in
              let differs : (n % bpb % 8 == m % bpb % 8) ≡ false =
                ground (arith, apart, block, byte) in
              rw near' (
                h (m % bpb % 8)
                ∙ rw differs (
                    ap (λ b. bit (d b (n % bpb / 8)) (m % bpb % 8)) block
                    ∙ ap (λ i. bit (d (bblock sb m) i) (m % bpb % 8)) byte))
        ])
  ])
]
