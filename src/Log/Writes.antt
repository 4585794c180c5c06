-- ===== src/Log/Writes.antt =====
-- What one block operation of the log does to the disk and to the contents that are read (log.c,
-- and bread and bwrite of bio.c).
use ducko_unix.Prelude.{◌+◌, ◌-◌, ◌==◌, ◌≡◌, refl, if◌then◌else◌, update, arith, loop_inv_zero, ℕ}
use ducko_unix.Log.{
  Log, Block, contents, bread, bwrite, install_trans, write_log, commit, install_one, write_log_one,
  write_head, head_words,
}

-- A write that reaches the disk only while the power lasts.
abbrev pub stored : ℕ → (ℕ → Block) → ℕ → Block → ℕ → Block
stored power disk b v = if power == 0 then disk else update disk b v

pub contents-bread : (s : Log) (b c : ℕ) → contents (bread s b) c ≡ contents s c
unfolding bread
contents-bread s b c = ground arith

pub contents-bwrite :
    (s : Log) (b : ℕ) (v : Block) (c : ℕ)
    → contents (bwrite s b v) c ≡ (if b == c then v else contents s c)
unfolding bwrite
contents-bwrite s b v c = ground arith

-- The parts of `struct log` that block writes leave alone.
pub record SameLog (s t : Log) : Type 0 where
  pub start : t.start ≡ s.start
  pub size : t.size ≡ s.size
  pub n : t.n ≡ s.n
  pub block : t.block ≡ s.block
  pub outstanding : t.outstanding ≡ s.outstanding
  pub committing : t.committing ≡ s.committing

-- An operation whose one write puts `v` into block `b`.
pub record WritesBlock (s t : Log) (b : ℕ) (v : Block) : Type 0 where
  pub same : SameLog s t
  pub disk : t.disk ≡ stored s.power s.disk b v
  pub power : t.power ≡ s.power - 1
  pub seen : (c : ℕ) → contents t c ≡ (if b == c then v else contents s c)

pub install_one-WritesBlock :
    (i : ℕ) (s : Log) → WritesBlock s (install_one i s) (s.block i) (contents s (s.start + i + 1))
unfolding install_one
install_one-WritesBlock i s = record {
  same = record {
    start = refl;
    size = refl;
    n = refl;
    block = refl;
    outstanding = refl;
    committing = refl;
  };
  disk = ground arith;
  power = refl;
  seen = λ c. ground arith;
}

pub write_log_one-WritesBlock :
    (i : ℕ) (s : Log) → WritesBlock s (write_log_one i s) (s.start + i + 1) (contents s (s.block i))
unfolding write_log_one
write_log_one-WritesBlock i s = record {
  same = record {
    start = refl;
    size = refl;
    n = refl;
    block = refl;
    outstanding = refl;
    committing = refl;
  };
  disk = ground arith;
  power = refl;
  seen = λ c. ground arith;
}

pub write_head-WritesBlock :
    (s : Log) → WritesBlock s (write_head s) s.start (head_words (contents s s.start) s.n s.block)
unfolding write_head
write_head-WritesBlock s = record {
  same = record {
    start = refl;
    size = refl;
    n = refl;
    block = refl;
    outstanding = refl;
    committing = refl;
  };
  disk = ground arith;
  power = refl;
  seen = λ c. ground arith;
}

install_trans-SameLog : (s : Log) → SameLog s (install_trans s)
unfolding install_trans
install_trans-SameLog s =
    loop_inv_zero (λ i t. SameLog s t) s.n install_one s
      (λ i t lt v. let w = install_one-WritesBlock i t in ground (arith, w.same)) (ground arith)

write_log-SameLog : (s : Log) → SameLog s (write_log s)
unfolding write_log
write_log-SameLog s =
    loop_inv_zero (λ i t. SameLog s t) s.n write_log_one s
      (λ i t lt v. let w = write_log_one-WritesBlock i t in ground (arith, w.same)) (ground arith)

-- What `commit` does to `struct log`: it empties the list.
pub commit-struct :
    (s : Log)
    → ((commit s).n ≡ 0)
      × ((commit s).start ≡ s.start)
      × ((commit s).size ≡ s.size)
      × ((commit s).outstanding ≡ s.outstanding)
      × ((commit s).committing ≡ s.committing)
unfolding commit
commit-struct s =
    let a = write_log s in
    let b = write_head a in
    let c = install_trans b in
    ground (
      arith,
      write_log-SameLog s,
      (write_head-WritesBlock a).same,
      install_trans-SameLog b,
      (write_head-WritesBlock (record c { n = 0 })).same,
    )
