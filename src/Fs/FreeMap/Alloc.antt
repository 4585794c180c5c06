-- ===== src/Fs/FreeMap/Alloc.antt =====
-- `balloc` and `bfree` (fs.c): blocks are given out one at a time, and cleared.
use ducko_unix.Prelude.{
  ℕ, suc, ◌+◌, ◌*◌, ◌/◌, ◌%◌, ◌<◌, ◌==◌, ◌≡◌, ◌≢◌, refl, if◌then◌else◌, arith, ne→==_false, ==_refl,
  subst, Bool-cases, Option-cases, inl, inr, ◌⊎◌, done, panic, Bool, true, false, ap, sym, ◌∙◌,
}
use ducko_unix.Fs.FreeMap.{
  bit, set_bit, clear_bit, Disk, Super, bpb, bblock, store, bzero, scan_blocks, mark, balloc, bfree,
}
use ducko_unix.Fs.FreeMap.Bits.{bit-set_bit, bit-clear_bit, used, used-store}
use ducko_unix.Fs.FreeMap.Search.{IsFirst, scan_blocks-IsFirst}

-- The map has the blocks that hold it as used, as every map from mkfs does.
abbrev pub IsMap : Super → Disk → Type 0
IsMap sb d = (m : ℕ) → m < sb.size → used sb d (bblock sb m) ≢ 0

-- A block is taken: it was free, all before it were used, now it is used and its bytes are zero,
-- and the other bits are as they were, as is every block outside the map.
pub record IsTaken (sb : Super) (d e : Disk) (n : ℕ) : Type 0 where
  pub inside : n < sb.size
  pub was_free : used sb d n ≡ 0
  pub first : (m : ℕ) → m < n → used sb d m ≢ 0
  pub map : (m : ℕ) → m < sb.size → used sb e m ≡ (if n == m then 1 else used sb d m)
  pub zeroed : (i : ℕ) → e n i ≡ 0
  pub others : (b : ℕ) → n ≢ b → bblock sb n ≢ b → (i : ℕ) → e b i ≡ d b i

taken :
    (sb : Super) (d : Disk) (n : ℕ)
    → IsMap sb d
    → n < sb.size
    → used sb d n ≡ 0
    → ((m : ℕ) → m < n → used sb d m ≢ 0)
    → IsTaken sb d (bzero n (mark sb n d)) n
taken sb d n map small free first = record {
  inside = small;
  was_free = free;
  first = first;
  map = λ m inside.
      let ne : n ≢ bblock sb m = λ e. map m inside (subst (λ k. used sb d k ≡ 0) e free) in
      let byte = d (bblock sb n) (n % bpb / 8) in
      rw (ne→==_false n (bblock sb m) ne) (
        used-store sb d n m (set_bit byte (n % bpb % 8)) 1 (λ j. bit-set_bit byte (n % bpb % 8) j));
  zeroed = λ i. rw (==_refl n) refl;
  others = λ b ne nm i. rw (ne→==_false n b ne, ne→==_false (bblock sb n) b nm) refl;
}

-- Where the map has its own blocks as used, `balloc` takes the first free block and clears it,
-- and panics just when the map has none.
pub balloc_lem :
    (sb : Super) (d : Disk)
    → IsMap sb d
    → ((n : ℕ) × (e : Disk) × (balloc sb d ≡ done (n, e)) × IsTaken sb d e n)
      ⊎ ((balloc sb d ≡ panic) × ((m : ℕ) → m < sb.size → used sb d m ≢ 0))
unfolding balloc
balloc_lem sb d map =
    let all = suc (sb.size / bpb) in
    let found = scan_blocks-IsFirst sb d 0 all refl in
    elim (Option-cases (scan_blocks sb d 0 all)) [
      | inl e ↦
          let none_free = subst (λ r. IsFirst sb d 0 (0 + all * bpb) r) e found in
          inr (rw (e, balloc) refl, λ m small. none_free m (omega arith) (omega arith) small)
      | inr (n, e) ↦
          let (lo, hi, small, free, first) =
            subst (λ r. IsFirst sb d 0 (0 + all * bpb) r) e found in
          inl (
            n,
            bzero n (mark sb n d),
            rw (e, balloc) refl,
            taken sb d n map small free (λ m before. first m (omega arith) before),
          )
    ]

-- `bfree` frees a block that is used, and changes no other bit; it panics just for a free block.
pub bfree_lem :
    (sb : Super) (b : ℕ) (d : Disk)
    → ((used sb d b ≡ 0) × (bfree sb b d ≡ panic))
      ⊎ ((e : Disk) × (used sb d b ≢ 0)
          × (bfree sb b d ≡ done e)
          × ((m : ℕ) → used sb e m ≡ (if b == m then 0 else used sb d m)))
unfolding bfree
bfree_lem sb b d = elim (Bool-cases (used sb d b == 0)) [
  | inl free ↦ inl (ground (arith, free), rw (free, bfree) refl)
  | inr in_use ↦
      let byte = d (bblock sb b) (b % bpb / 8) in
      let cleared = clear_bit byte (b % bpb % 8) in
      inr (
        store d (bblock sb b) (b % bpb / 8) cleared,
        ground (arith, in_use),
        rw (in_use, bfree) refl,
        λ m. used-store sb d b m cleared 0 (λ j. bit-clear_bit byte (b % bpb % 8) j),
      )
]

settled : (b : Bool) (x e : Disk) → (if b then panic else done x) ≡ done e → x ≡ e
settled true x e h = cc
settled false x e h = cc h

-- `bfree` writes to the map only.
pub bfree-others :
    (sb : Super) (n : ℕ) (d e : Disk)
    → bfree sb n d ≡ done e
    → (b : ℕ) → bblock sb n ≢ b
    → e b ≡ d b
unfolding bfree
bfree-others sb n d e eq b ne =
    let byte = d (bblock sb n) (n % bpb / 8) in
    let is =
      settled (bit byte (n % bpb % 8) == 0)
        (store d (bblock sb n) (n % bpb / 8) (clear_bit byte (n % bpb % 8))) e eq in
    ap (λ e. e b) (sym is) ∙ rw (ne→==_false (bblock sb n) b ne) refl
