-- ===== src/Log.antt =====
-- log.c: the write-ahead log that makes a group of block writes atomic under crashes.
--
-- The state is `struct log`, the disk and the buffer cache. A block is its 128 words, so the
-- header is word 0 (`n`) and the words from 1 on (`block[]`). `power` counts the block writes that
-- still reach the disk: when it is used up the machine has lost power, and the rest of a run has
-- no effect on the disk. So a run with each value of `power` is a run that crashes at that write.
-- One block write is atomic, as for a disk sector.
--
-- The buffer cache is seen as the contents that `bread` returns. Eviction is left out: `bget`
-- recycles no buffer that is dirty, and a clean one has the contents of the disk (module Bio).
pub mod Disk
pub mod Writes
pub mod Recover
pub mod Boot
pub mod WriteLog
pub mod Ops
pub mod Reserve
pub mod Absorb
mod Tests
pub mod Commit
use ducko_unix.Prelude.{
  ℕ, zero, suc, ◌+◌, ◌-◌, ltb, ◌==◌, Option, none, some, Bool, true, false, if◌then◌else◌, update,
  loop,
}

abbrev pub Block : Type 0
Block = ℕ → ℕ

pub record Log : Type 0 where
  pub disk : ℕ → Block
  pub cache : ℕ → Option Block
  pub power : ℕ
  -- `log.start`, `log.size`, `log.outstanding`, `log.committing`
  pub start : ℕ
  pub size : ℕ
  pub outstanding : ℕ
  pub committing : Bool
  -- `log.lh`
  pub n : ℕ
  pub block : ℕ → ℕ

abbrev pub contents : Log → ℕ → Block
contents s b = elim (s.cache b) [ none ↦ s.disk b | some d ↦ d ]

-- bio.c: the buffer's words, which is in the cache from then on.
pub bread : Log → ℕ → Log
bread s b = record s { cache = update s.cache b (some (contents s b)) }

-- bio.c: `words` is what the caller has put into the buffer.
pub bwrite : Log → ℕ → Block → Log
bwrite s b words = record s {
  cache = update s.cache b (some words);
  disk = if s.power == 0 then s.disk else update s.disk b words;
  power = s.power - 1;
}

-- One round of `install_trans`.
pub install_one : ℕ → Log → Log
unfolding bread bwrite
install_one tail s =
    let s1 = bread s (s.start + tail + 1) in
    let s2 = bread s1 (s.block tail) in bwrite s2 (s.block tail) (contents s1 (s.start + tail + 1))

pub install_trans : Log → Log
install_trans s = loop s.n 0 install_one s

-- `lh->n` and `lh->block[i]` in the header block.
abbrev pub header_n : Block → ℕ
header_n words = words 0

abbrev pub header_block : Block → ℕ → ℕ
header_block words i = words (suc i)

pub read_head : Log → Log
unfolding bread
read_head s =
    let s1 = bread s s.start in
    let words = contents s s.start in
    record s1 {
      n = header_n words;
      block = loop (header_n words) 0 (λ i block. update block i (header_block words i)) s.block;
    }

-- The words that `write_head` stores: `hb->n`, then `hb->block[i]` for each i below it.
pub head_words : Block → ℕ → (ℕ → ℕ) → Block
head_words words n block = loop n 0 (λ i hb. update hb (suc i) (block i)) (update words 0 n)

pub write_head : Log → Log
unfolding bread bwrite head_words
write_head s =
    let s1 = bread s s.start in bwrite s1 s.start (head_words (contents s s.start) s.n s.block)

pub recover_from_log : Log → Log
unfolding read_head install_trans write_head
recover_from_log s = let s1 = install_trans (read_head s) in write_head (record s1 { n = 0 })

-- The log of a machine that has just started: its memory is clear. `start` and `size` are
-- `sb.logstart` and `sb.nlog`, as `readsb` finds them.
abbrev pub started : ℕ → ℕ → ℕ → (ℕ → Block) → Log
started start size power disk = record {
  disk = disk;
  cache = λ b. none;
  power = power;
  start = start;
  size = size;
  outstanding = 0;
  committing = false;
  n = 0;
  block = λ i. 0;
}

-- The header is smaller than a block (124 of 512 bytes), so the first test never panics.
pub initlog : ℕ → ℕ → ℕ → (ℕ → Block) → Log
unfolding recover_from_log
initlog start size power disk = recover_from_log (started start size power disk)

-- One round of `write_log`.
pub write_log_one : ℕ → Log → Log
unfolding bread bwrite
write_log_one tail s =
    let s1 = bread s (s.start + tail + 1) in
    let s2 = bread s1 (s.block tail) in bwrite s2 (s.start + tail + 1) (contents s1 (s.block tail))

pub write_log : Log → Log
write_log s = loop s.n 0 write_log_one s

pub commit : Log → Log
unfolding write_log write_head install_trans
commit s =
    let s1 = install_trans (write_head (write_log s)) in
    if ltb 0 s.n then write_head (record s1 { n = 0 }) else s
