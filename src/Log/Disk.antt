-- ===== src/Log/Disk.antt =====
-- What a disk image stands for to the log (log.c): the logged copy of a block, where the header
-- lists the block, and the block itself otherwise.
use ducko_unix.Prelude.{
  ℕ, zero, suc, ◌+◌, ◌<◌, ◌≤◌, ◌==◌, ◌≡◌, refl, ◌⊎◌, inl, inr, if◌then◌else◌, update, arith,
  loop_inv_zero, ap, sym, ◌∙◌, Bool-cases,
}
use ducko_unix.Log.{Block, header_n, header_block, head_words}

-- Outside the log region, whose first block is the header.
abbrev pub IsHome : ℕ → ℕ → ℕ → Type 0
IsHome start size b = (b < start) ⊎ (start + size ≤ b)

-- Block `b` once the first `k` of the listed blocks are installed, in order, over `home`.
abbrev pub replay : (ℕ → ℕ) → (ℕ → Block) → (ℕ → Block) → ℕ → ℕ → Block
replay block logged home zero b = home b
replay block logged home (suc k) b = if block k == b then logged k else replay block logged home k b

-- The contents of block `b` after recovery, as the disk image determines them.
abbrev pub committed : ℕ → (ℕ → Block) → ℕ → Block
committed start d b =
    replay (header_block (d start)) (λ i. d (start + i + 1)) d (header_n (d start)) b

-- The header lists blocks outside the log, and no more than the log has room for.
pub record IsLogged (start size n : ℕ) (block : ℕ → ℕ) : Type 0 where
  pub room : n < size
  pub home : (i : ℕ) → i < n → IsHome start size (block i)

-- An image whose header `recover_from_log` can follow.
abbrev pub IsSound : ℕ → ℕ → (ℕ → Block) → Type 0
IsSound start size d = IsLogged start size (header_n (d start)) (header_block (d start))

-- `replay` looks at the first `k` listed blocks, at their logged copies and at block `b` alone.
pub replay_cong :
    (block block' : ℕ → ℕ) (logged logged' home home' : ℕ → Block) (k b : ℕ)
    → ((i : ℕ) → i < k → block i ≡ block' i)
    → ((i : ℕ) → i < k → logged i ≡ logged' i)
    → home b ≡ home' b
    → replay block logged home k b ≡ replay block' logged' home' k b
replay_cong block block' logged logged' home home' zero b p q r = r
replay_cong block block' logged logged' home home' (suc k) b p q r =
    let ih =
      replay_cong block block' logged logged' home home' k b (λ i h. p i (omega arith))
        (λ i h. q i (omega arith)) r in
    ground (arith, ih, p k (omega arith), q k (omega arith))

-- Installing one of the first `k` listed blocks does not change what they stand for.
pub replay-update :
    (block : ℕ → ℕ) (logged home : ℕ → Block) (k i b : ℕ) (v : Block)
    → i < k
    → replay block logged (update home (block i) v) k b ≡ replay block logged home k b
replay-update block logged home zero i b v h = absurd (omega arith)
replay-update block logged home (suc k) i b v h = elim (Bool-cases (i == k)) [
  | inl last ↦
      let miss =
        replay_cong block block logged logged (update home (block i) v) home k b (λ j _. refl)
          (λ j _. refl) in
      ground (arith, miss)
  | inr before ↦ ground (arith, replay-update block logged home k i b v)
]

-- The words that `write_head` stores.
pub header-head_words :
    (words : Block) (n : ℕ) (block : ℕ → ℕ)
    → (header_n (head_words words n block) ≡ n)
      × ((i : ℕ) → i < n → header_block (head_words words n block) i ≡ block i)
unfolding head_words
header-head_words words n block =
    let start = update words 0 n in
    let store = λ (i : ℕ) (hb : Block). update hb (suc i) (block i) in
    loop_inv_zero (λ j hb. (hb 0 ≡ n) × ((i : ℕ) → i < j → hb (suc i) ≡ block i)) n store start
      (λ j hb hi kept. (ground (arith, kept.0), λ i lt. ground (arith, kept.1 i)))
      (refl, λ i lt. absurd (omega arith))

-- `committed` by any list of blocks that agrees with the header.
pub committed_lem :
    (start n : ℕ) (d : ℕ → Block) (block : ℕ → ℕ) (b : ℕ)
    → n ≡ header_n (d start)
    → ((i : ℕ) → i < n → block i ≡ header_block (d start) i)
    → committed start d b ≡ replay block (λ i. d (start + i + 1)) d n b
committed_lem start n d block b count listed =
    let listing = header_block (d start) in
    let logged = λ (i : ℕ). d (start + i + 1) in
    ap (λ k. replay listing logged d k b) (sym count)
    ∙ sym (replay_cong block listing logged logged d d n b listed (λ i _. refl) refl)

pub image-IsSound :
    (start size n : ℕ) (block : ℕ → ℕ) (d : ℕ → Block)
    → n ≡ header_n (d start)
    → ((i : ℕ) → i < n → block i ≡ header_block (d start) i)
    → IsLogged start size n block
    → IsSound start size d
image-IsSound start size n block d count listed v = record {
  room = omega (arith, v.room);
  home = λ i lt. ground (arith, listed i (omega arith), v.home i (omega arith));
}

pub cleared-IsSound :
    (start size : ℕ) (d : ℕ → Block) → header_n (d start) ≡ 0 → 0 < size → IsSound start size d
cleared-IsSound start size d e h = record {
  room = omega arith;
  home = λ i lt. absurd (omega arith);
}
