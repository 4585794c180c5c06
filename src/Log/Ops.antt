-- ===== src/Log/Ops.antt =====
-- log.c: `begin_op`, `log_write` and `end_op`, by which file system calls take part in a group.
-- Each runs with the log's lock held (`log_write` reads the counters before it takes the lock; they
-- only change there and in its own calls).
use ducko_unix.Prelude.{
  ℕ, zero, suc, ◌+◌, ◌-◌, ◌*◌, ltb, leb, ◌==◌, Bool, true, false, ◌||◌, some, if◌then◌else◌, update,
  Outcome, done, panic,
}
use ducko_unix.Log.{Log, Block, commit}

-- MAXOPBLOCKS and LOGSIZE.
abbrev pub max_op_blocks : ℕ
max_op_blocks = 10

abbrev pub log_size : ℕ
log_size = max_op_blocks * 3

-- `begin_op` lets the call in, or it sleeps on `&log` and tries again when it is woken.
pub data Begun : Type 0 where
  admitted : Log → Begun
  sleeps : Begun

unfoldable pub begin_op : Log → Begun
begin_op s =
    if s.committing
    then sleeps
    else (if ltb log_size (s.n + (s.outstanding + 1) * max_op_blocks)
        then sleeps
        else admitted (record s { outstanding = s.outstanding + 1 }))

-- The first index of `b` among `block[i..n)`, or `n`; `k` rounds are left.
unfoldable pub find_logged : (ℕ → ℕ) → ℕ → ℕ → ℕ → ℕ
find_logged block b zero i = i
find_logged block b (suc k) i =
    let rest = find_logged block b k (suc i) in if block i == b then i else rest

-- `words` is what the caller has put into the buffer of block `b`; it stays in the cache, where
-- B_DIRTY keeps the buffer from being recycled.
unfoldable pub log_write : Log → ℕ → Block → Outcome Log
unfolding find_logged
log_write s b words =
    let i = find_logged s.block b s.n 0 in
    if leb log_size s.n || leb s.size (s.n + 1)
    then panic
    else (if ltb s.outstanding 1
        then panic
        else done (record s {
          cache = update s.cache b (some words);
          block = update s.block i b;
          n = if i == s.n then s.n + 1 else s.n;
        }))

-- `end_op` up to the release of the lock: the state, and `do_commit`. Callers are in an operation,
-- so `outstanding` is positive.
unfoldable pub end_op_leave : Log → Outcome (Log × Bool)
end_op_leave s =
    if s.committing
    then panic
    else (if s.outstanding == 1
        then done (record s { outstanding = s.outstanding - 1; committing = true }, true)
        else done (record s { outstanding = s.outstanding - 1 }, false))

-- The rest of `end_op` where `do_commit` is set; both paths wake the sleepers on `&log`.
unfoldable pub end_op_commit : Log → Log
end_op_commit s = record (commit s) { committing = false }
