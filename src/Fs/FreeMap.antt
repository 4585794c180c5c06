-- ===== src/Fs/FreeMap.antt =====
-- The free map of fs.c: `balloc`, `bfree`, `bzero`. The disk is a function from blocks and offsets
-- to bytes, as the cache and the log show it to the calls of a transaction.
pub mod Bits
pub mod Search
pub mod Alloc
mod Tests
use ducko_unix.Prelude.{
  ℕ, zero, suc, ◌+◌, ◌-◌, ◌*◌, ◌/◌, ◌%◌, ltb, ◌==◌, Bool, true, false, ◌&&◌, Option, none, some,
  if◌then◌else◌, update, Outcome, done, panic,
}

-- `(x >> m) & 1`, `x | 1 << m` and `x & ~(1 << m)`.
unfoldable pub bit : ℕ → ℕ → ℕ
bit x zero = x % 2
bit x (suc m) = bit (x / 2) m

unfoldable pub set_bit : ℕ → ℕ → ℕ
set_bit x zero = x / 2 * 2 + 1
set_bit x (suc m) = set_bit (x / 2) m * 2 + x % 2

unfoldable pub clear_bit : ℕ → ℕ → ℕ
clear_bit x zero = x / 2 * 2
clear_bit x (suc m) = clear_bit (x / 2) m * 2 + x % 2

abbrev pub Disk : Type 0
Disk = ℕ → ℕ → ℕ

-- The size and the start of the map in the super block.
pub record Super : Type 0 where
  pub size : ℕ
  pub bmapstart : ℕ

-- BPB and BBLOCK.
abbrev pub bpb : ℕ
bpb = 4096

abbrev pub bblock : Super → ℕ → ℕ
bblock sb b = b / bpb + sb.bmapstart

-- A change of one byte, which the log records.
abbrev pub store : Disk → ℕ → ℕ → ℕ → Disk
store d block i v = update d block (update (d block) i v)

abbrev pub bzero : ℕ → Disk → Disk
bzero b d = update d b (λ i. 0)

-- The inner loop of `balloc`, with `k` rounds left: the free block it stops at.
unfoldable pub scan : Super → Disk → ℕ → ℕ → ℕ → Option ℕ
scan sb d b bi zero = none
scan sb d b bi (suc k) =
    let rest = scan sb d b (bi + 1) k in
    if ltb (b + bi) sb.size
    then (if bit (d (bblock sb b) (bi / 8)) (bi % 8) == 0 then some (b + bi) else rest)
    else none

-- The outer loop. Each round covers a block of the map, so that one more than their number is
-- enough.
unfoldable pub scan_blocks : Super → Disk → ℕ → ℕ → Option ℕ
scan_blocks sb d b zero = none
scan_blocks sb d b (suc fuel) =
    let rest = scan_blocks sb d (b + bpb) fuel in
    if ltb b sb.size then (elim (scan sb d b 0 bpb) [ none ↦ rest | some n ↦ some n ]) else none

-- `bi` and the block of the map of the block `n` that is found.
abbrev pub mark : Super → ℕ → Disk → Disk
mark sb n d =
    store d (bblock sb n) (n % bpb / 8) (set_bit (d (bblock sb n) (n % bpb / 8)) (n % bpb % 8))

unfoldable pub balloc : Super → Disk → Outcome (ℕ × Disk)
balloc sb d = elim (scan_blocks sb d 0 (suc (sb.size / bpb))) [
  | none ↦ panic
  | some n ↦ done (n, bzero n (mark sb n d))
]

unfoldable pub bfree : Super → ℕ → Disk → Outcome Disk
bfree sb b d =
    let byte = d (bblock sb b) (b % bpb / 8) in
    if bit byte (b % bpb % 8) == 0
    then panic
    else done (store d (bblock sb b) (b % bpb / 8) (clear_bit byte (b % bpb % 8)))
