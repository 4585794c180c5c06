-- ===== src/Log/Tests.antt =====
-- Runs of log.c on a small disk, and instances of its theorems.
use ducko_unix.Prelude.{
  ℕ, ◌==◌, ◌≡◌, ◌≢◌, refl, ◌⊎◌, [], ◌∷◌, none, some, if◌then◌else◌, arith, loop, panic,
}
use ducko_unix.Log.{
  Log, Block, header_n, started, initlog, commit, bread, bwrite, install_one, install_trans,
  read_head, head_words, write_head, recover_from_log, write_log_one, write_log,
}
use ducko_unix.Log.Disk.{IsHome, committed, IsSound}
use ducko_unix.Log.WriteLog.{Pending, intended}
use ducko_unix.Log.Boot.{reboots, recovery_restarts}
use ducko_unix.Log.Commit.{commit_crash_recover, commit_durable}
use ducko_unix.Log.Ops.{begin_op, log_write}
use ducko_unix.Log.Reserve.{Sys, Reach, here, next, begin, log_write-no_panic}

-- Block `b` holds the number `b` in every word; the header, block 2, is clear.
abbrev image : ℕ → Block
image b i = if b == 2 then 0 else b

-- Blocks 50 and 60 are modified in the cache, and the power lasts for `power` writes.
abbrev group : ℕ → Log
group power = record (started 2 31 power image) {
  cache = λ b. if b == 50 then some (λ i. 1) else if b == 60 then some (λ i. 2) else none;
  n = 2;
  block = λ i. if i == 0 then 50 else 60;
  outstanding = 1;
}

group-Pending : (power : ℕ) → Pending (group power)
group-Pending power = record {
  listed = record { room = omega arith; home = λ i lt. ground arith };
  clear = refl;
}

-- The disk after a crash and a boot.
abbrev after_crash : ℕ → ℕ → Block
after_crash power = (initlog 2 31 40 (commit (group power)).disk).disk

-- Before the header is written the group is lost as a whole, and from then on it is there.
crash_early : (after_crash 2 50 0 ≡ 50) × (after_crash 2 60 0 ≡ 60)
unfolding initlog commit bread bwrite install_one install_trans read_head head_words write_head
    recover_from_log write_log_one write_log loop
crash_early = (refl, refl)

crash_late : (after_crash 3 50 0 ≡ 1) × (after_crash 3 60 0 ≡ 2) × (after_crash 3 70 0 ≡ 70)
unfolding initlog commit bread bwrite install_one install_trans read_head head_words write_head
    recover_from_log write_log_one write_log loop
crash_late = (refl, refl, refl)

-- A crash in the commit after 4 writes, and in two boots after 1 and 0.
commit_crash_recover_example :
    let u = (initlog 2 31 31 (reboots 2 31 (1 ∷ 0 ∷ []) (commit (group 4)).disk)).disk in
    (header_n (u 2) ≡ 0)
    × (((b : ℕ) → IsHome 2 31 b → u b ≡ image b)
        ⊎ ((b : ℕ) → IsHome 2 31 b → u b ≡ intended (group 4) b))
commit_crash_recover_example = commit_crash_recover 31 (1 ∷ 0 ∷ []) (group-Pending 4) (omega arith)

commit_durable_example :
    (header_n ((commit (group 6)).disk 2) ≡ 0)
    × ((b : ℕ) → IsHome 2 31 b → (commit (group 6)).disk b ≡ intended (group 6) b)
commit_durable_example = commit_durable (group-Pending 6) (omega arith)

image-IsSound : IsSound 2 31 image
image-IsSound = record { room = omega arith; home = λ i lt. absurd (omega arith) }

recovery_restarts_example :
    let u = (initlog 2 31 31 (reboots 2 31 (0 ∷ []) image)).disk in
    (header_n (u 2) ≡ 0) × ((b : ℕ) → IsHome 2 31 b → u b ≡ committed 2 image b)
recovery_restarts_example = recovery_restarts 2 31 31 (0 ∷ []) image image-IsSound (omega arith)

-- One call has begun, on an empty log.
abbrev idle : Log
idle = started 2 31 100 image

abbrev begun : Sys
begun = record { log = record idle { outstanding = 1 }; budgets = 10 ∷ [] }

begun-Reach : Reach (record { log = idle; budgets = [] }) begun
unfolding begin_op
begun-Reach = next (here refl refl refl refl) (begin _ refl)

log_write-no_panic_example : log_write begun.log 50 (λ i. 1) ≢ panic
log_write-no_panic_example = log_write-no_panic [] [] 9 50 (λ i. 1) begun-Reach refl (omega arith)

-- Block 50 is listed already, and is absorbed.
abbrev absorbed : Log
absorbed = record (group 9) {
  cache = λ b. if 50 == b then some (λ i. 7) else (group 9).cache b;
  block = λ i. if 0 == i then 50 else (group 9).block i;
}
