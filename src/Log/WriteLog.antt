-- ===== src/Log/WriteLog.antt =====
-- `write_log`: the copies in the log, and what it leaves alone (log.c).
use ducko_unix.Prelude.{ℕ, suc, ◌+◌, ◌-◌, ◌<◌, ◌≤◌, ◌≡◌, refl, arith, loop_inv_zero, ap, ◌∙◌}
use ducko_unix.Log.{Log, Block, contents, header_n, write_log_one, write_log}
use ducko_unix.Log.Disk.{IsHome, replay, IsLogged}
use ducko_unix.Log.Writes.{SameLog, write_log_one-WritesBlock}

-- The state in which `commit` starts: the blocks listed in memory lie outside the log and fit into
-- it, and the header on the disk is clear.
pub record Pending (s : Log) : Type 0 where
  pub listed : IsLogged s.start s.size s.n s.block
  pub clear : header_n (s.disk s.start) ≡ 0

-- Block `b` as the group of operations wants it: what is in the cache, if it is listed.
abbrev pub intended : Log → ℕ → Block
intended s b = replay s.block (λ i. contents s (s.block i)) s.disk s.n b

-- After `i` rounds of `write_log` that began in `s`.
pub record Logged (s : Log) (i : ℕ) (t : Log) : Type 0 where
  pub same : SameLog s t
  pub power : t.power ≡ s.power - i
  pub head_kept : t.disk s.start ≡ s.disk s.start
  pub home_kept : (b : ℕ) → IsHome s.start s.size b → t.disk b ≡ s.disk b
  pub home_seen : (b : ℕ) → IsHome s.start s.size b → contents t b ≡ contents s b
  pub log_seen : (j : ℕ) → j < i → contents t (s.start + j + 1) ≡ contents s (s.block j)
  pub log_disk : i ≤ s.power → (j : ℕ) → j < i → t.disk (s.start + j + 1) ≡ contents s (s.block j)

write_log_one-Logged :
    {s : Log}
    → Pending s
    → (i : ℕ) (t : Log) → i < s.n
    → Logged s i t
    → Logged s (suc i) (write_log_one i t)
write_log_one-Logged {s} q i t lt v =
    let w = write_log_one-WritesBlock i t in
    let at : t.block i ≡ s.block i = ap (λ f. f i) v.same.block in
    let copy : contents t (t.block i) ≡ contents s (s.block i) =
      ap (contents t) at ∙ v.home_seen (s.block i) (q.listed.home i lt) in
    let disk = λ (b : ℕ). ap (λ d. d b) w.disk in
    record {
      same = ground (arith, w.same, v.same);
      power = omega (arith, w.power, v.power);
      head_kept = ground (arith, disk s.start, v.head_kept, v.same.start);
      home_kept = λ b hb. ground (arith, disk b, v.home_kept b hb, v.same.start, q.listed.room);
      home_seen = λ b hb. ground (arith, w.seen b, v.home_seen b hb, v.same.start, q.listed.room);
      log_seen = λ j hj. ground (arith, w.seen (s.start + j + 1), v.log_seen j, v.same.start, copy);
      log_disk = λ p j hj.
          ground (
            arith,
            disk (s.start + j + 1),
            v.log_disk (omega arith) j,
            v.same.start,
            copy,
            v.power,
          );
    }

pub write_log-Logged : {s : Log} → Pending s → Logged s s.n (write_log s)
unfolding write_log
write_log-Logged {s} q =
    loop_inv_zero (Logged s) s.n write_log_one s (λ i t lt v. write_log_one-Logged q i t lt v)
      (record {
        same = ground arith;
        power = omega arith;
        head_kept = refl;
        home_kept = λ b hb. refl;
        home_seen = λ b hb. refl;
        log_seen = λ j hj. absurd (omega arith);
        log_disk = λ p j hj. absurd (omega arith);
      })
