-- ===== src/Log/Reserve.antt =====
-- The space that `begin_op` reserves is enough (log.c): calls that each write at most MAXOPBLOCKS
-- times never find the log full, under any interleaving.
use ducko_unix.Prelude.{
  ℕ, suc, ◌+◌, ◌*◌, ◌<◌, ◌≤◌, ◌≡◌, ◌≢◌, true, false, List, [], ◌∷◌, ◌++◌, arith, ap, sym, length,
  done, panic, length-append, All, subst,
}
use ducko_unix.Log.{Log, Block}
use ducko_unix.Log.Writes.{commit-struct}
use ducko_unix.Log.Ops.{
  max_op_blocks, log_size, admitted, begin_op, log_write, end_op_leave, end_op_commit,
}

abbrev pub sum : List ℕ → ℕ
sum [] = 0
sum (x ∷ xs) = x + sum xs

-- The log, and for each call between its `begin_op` and `end_op` the writes that it has left.
pub record Sys : Type 0 where
  pub log : Log
  pub budgets : List ℕ

-- What the reservation keeps.
pub record Reserved (s : Sys) : Type 0 where
  pub fits : s.log.n + sum s.budgets ≤ log_size
  pub each : All (λ k. k ≤ max_op_blocks) s.budgets
  pub counted : length s.budgets ≡ s.log.outstanding
  pub quiet : s.log.committing ≡ false

-- A call with budget `k` writes, and stands anywhere among the calls.
pub data Step (s : Sys) : Sys → Type 0 where
  begin :
      (t : Log)
      → begin_op s.log ≡ admitted t
      → Step s (record { log = t; budgets = max_op_blocks ∷ s.budgets })
  write :
      (xs ys : List ℕ) (k b : ℕ) (words : Block) (t : Log)
      → s.budgets ≡ xs ++ suc k ∷ ys
      → log_write s.log b words ≡ done t
      → Step s (record { log = t; budgets = xs ++ k ∷ ys })
  leave :
      (xs ys : List ℕ) (k : ℕ) (t : Log)
      → s.budgets ≡ xs ++ k ∷ ys
      → end_op_leave s.log ≡ done (t, false)
      → Step s (record { log = t; budgets = xs ++ ys })
  leave_last :
      (k : ℕ) (t : Log)
      → s.budgets ≡ k ∷ []
      → end_op_leave s.log ≡ done (t, true)
      → Step s (record { log = end_op_commit t; budgets = [] })

sum-append : (xs ys : List ℕ) → sum (xs ++ ys) ≡ sum xs + sum ys
sum-append [] ys = omega arith
sum-append (x ∷ xs) ys = omega (arith, sum-append xs ys)

All-split :
    {m : ℕ} (xs ys : List ℕ) (k : ℕ)
    → All (λ j. j ≤ m) (xs ++ k ∷ ys)
    → (k ≤ m) × All (λ j. j ≤ m) (xs ++ ys)
All-split [] ys k h = h
All-split (x ∷ xs) ys k h = let r = All-split xs ys k h.1 in (r.0, (h.0, r.1))

All-insert :
    {m : ℕ} (xs ys : List ℕ) (k : ℕ)
    → k ≤ m
    → All (λ j. j ≤ m) (xs ++ ys)
    → All (λ j. j ≤ m) (xs ++ k ∷ ys)
All-insert [] ys k hk h = (hk, h)
All-insert (x ∷ xs) ys k hk h = (h.0, All-insert xs ys k hk h.1)

sum-le : (m : ℕ) (xs : List ℕ) → All (λ j. j ≤ m) xs → sum xs ≤ length xs * m
sum-le m [] h = omega arith
sum-le m (x ∷ xs) h = grind (arith, sum-le m xs h.1)

Step-Reserved : {s t : Sys} → Step s t → Reserved s → Reserved t
unfolding begin_op log_write end_op_leave end_op_commit
Step-Reserved {s} (begin t e) v = ground (arith, sum-le max_op_blocks s.budgets v.each)
Step-Reserved {s} (write xs ys k b words t e w) v =
    let r = All-split xs ys (suc k) (subst (All (λ j. j ≤ max_op_blocks)) e v.each) in
    record {
      fits = ground (arith, ap sum e, sum-append xs (suc k ∷ ys), sum-append xs (k ∷ ys));
      each = All-insert xs ys k (omega (arith, r.0)) r.1;
      counted =
          ground (arith, ap length e, length-append xs (suc k ∷ ys), length-append xs (k ∷ ys));
      quiet = ground arith;
    }
Step-Reserved {s} (leave xs ys k t e w) v = record {
  fits = ground (arith, ap sum e, sum-append xs (k ∷ ys), sum-append xs ys);
  each = (All-split xs ys k (subst (All (λ j. j ≤ max_op_blocks)) e v.each)).1;
  counted = ground (arith, ap length e, length-append xs (k ∷ ys), length-append xs ys);
  quiet = ground arith;
}
Step-Reserved {s} (leave_last k t e w) v = ground (arith, ap length e, commit-struct t)

-- From a log with no call in progress and nothing logged.
pub data Reach (s : Sys) : Sys → Type 0 where
  here : s.log.n ≡ 0 → s.log.outstanding ≡ 0 → s.log.committing ≡ false → s.budgets ≡ [] → Reach s s
  next : {t u : Sys} → Reach s t → Step t u → Reach s u

pub Reach-Reserved : {s t : Sys} → Reach s t → Reserved t
Reach-Reserved (here n o c b) = record {
  fits = omega (arith, ap sum b);
  each = subst (All (λ j. j ≤ max_op_blocks)) (sym b) tt;
  counted = omega (arith, ap length b);
  quiet = c;
}
Reach-Reserved (next r st) = Step-Reserved st (Reach-Reserved r)

-- In every interleaving of calls that each write at most MAXOPBLOCKS times, a call that has a write
-- left can make it: `log_write` does not panic, if the log has more than LOGSIZE blocks.
pub log_write-no_panic :
    {s t : Sys} (xs ys : List ℕ) (k b : ℕ) (words : Block)
    → Reach s t
    → t.budgets ≡ xs ++ suc k ∷ ys
    → log_size < t.log.size
    → log_write t.log b words ≢ panic
unfolding log_write
log_write-no_panic {s} {t} xs ys k b words r e h p =
    let v = Reach-Reserved r in
    ground (
      arith,
      v.fits,
      v.counted,
      ap sum e,
      sum-append xs (suc k ∷ ys),
      ap length e,
      length-append xs (suc k ∷ ys),
    )
