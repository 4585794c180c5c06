-- ===== src/Pipe.antt =====
-- pipe.c: the ring of 512 bytes between a writer and a reader. Each function runs with the pipe's
-- lock held, from `acquire` to `release` or to `sleep`, which gives the lock up; so one call here
-- is one critical section, and a process that was asleep enters the loop again with what is left.
pub mod Window
pub mod Fifo
pub mod System
mod Tests
use ducko_unix.Prelude.{
  ℕ, ◌+◌, ◌%◌, ◌^◌, ◌==◌, Bool, true, false, ◌&&◌, ◌||◌, not, List, [], ◌∷◌, ◌++◌, if◌then◌else◌,
  update,
}

abbrev pub pipe_size : ℕ
pipe_size = 512

-- `uint` addition.
abbrev pub add_u32 : ℕ → ℕ → ℕ
add_u32 a b = (a + b) % 2 ^ 32

-- `struct pipe` without its lock. An index into `buf` is always taken modulo PIPESIZE.
pub record Pipe : Type 0 where
  pub buf : ℕ → ℕ
  pub nread : ℕ
  pub nwrite : ℕ
  pub readopen : Bool
  pub writeopen : Bool

-- What a process sleeps on: `&p->nread` for readers, `&p->nwrite` for writers.
pub data Chan : Type 0 where
  nread_chan nwrite_chan : Chan

-- How a critical section ends: with a result, with -1, or in `sleep` (on the chan of its kind).
pub data Status : Type 0 where
  returned failed asleep : Status

-- The initial values that `pipealloc` stores.
pub fresh : (ℕ → ℕ) → Pipe
fresh junk = record { buf = junk; nread = 0; nwrite = 0; readopen = true; writeopen = true }

abbrev pub is_full : Pipe → Bool
is_full p = p.nwrite == add_u32 p.nread pipe_size

abbrev pub is_empty : Pipe → Bool
is_empty p = p.nread == p.nwrite

-- `p->data[p->nwrite++ % PIPESIZE] = b`
pub put_byte : Pipe → ℕ → Pipe
put_byte p b = record p { buf = update p.buf (p.nwrite % pipe_size) b; nwrite = add_u32 p.nwrite 1 }

-- `p->data[p->nread++ % PIPESIZE]`, and the pipe after it.
abbrev pub head_byte : Pipe → ℕ
head_byte p = p.buf (p.nread % pipe_size)

pub drop_byte : Pipe → Pipe
drop_byte p = record p { nread = add_u32 p.nread 1 }

pub record Written : Type 0 where
  pub pipe : Pipe
  -- `addr[i..n)`, what is not copied yet
  pub rest : List ℕ
  pub status : Status
  -- the calls of `wakeup`, in order
  pub woken : List Chan

-- The loop of `pipewrite` over `addr[i..n)`; `killed` is `myproc()->killed`, which another process
-- may set, but not while this section runs with its effect on the test.
pub pipewrite : Bool → Pipe → List ℕ → Written
unfolding put_byte
pipewrite killed p [] = record { pipe = p; rest = []; status = returned; woken = nread_chan ∷ [] }
pipewrite killed p (b ∷ bs) =
    let more = pipewrite killed (put_byte p b) bs in
    let stuck : Written =
      if not p.readopen || killed
      then record { pipe = p; rest = b ∷ bs; status = failed; woken = [] }
      else record { pipe = p; rest = b ∷ bs; status = asleep; woken = nread_chan ∷ [] } in
    if is_full p then stuck else more

pub record Read : Type 0 where
  pub pipe : Pipe
  -- the bytes stored through `addr`; their number is the result
  pub bytes : List ℕ
  pub status : Status
  pub woken : List Chan

-- The second loop of `piperead`, with `k` rounds left.
pub copy_out : Pipe → ℕ → Pipe × List ℕ
unfolding drop_byte
copy_out p ℕ.zero = (p, [])
copy_out p (ℕ.suc k) =
    let more = copy_out (drop_byte p) k in
    let taken : Pipe × List ℕ = (more.0, head_byte p ∷ more.1) in
    if is_empty p then (p, []) else taken

pub piperead : Bool → Pipe → ℕ → Read
unfolding copy_out
piperead killed p n =
    if is_empty p && p.writeopen
    then (if killed
        then record { pipe = p; bytes = []; status = failed; woken = [] }
        else record { pipe = p; bytes = []; status = asleep; woken = [] })
    else (let out = copy_out p n in
        record { pipe = out.0; bytes = out.1; status = returned; woken = nwrite_chan ∷ [] })

pub record Closed : Type 0 where
  pub pipe : Pipe
  -- both ends are closed: the page goes back by `kfree`
  pub freed : Bool
  pub woken : List Chan

pub pipeclose : Pipe → Bool → Closed
pipeclose p writable =
    let p' = if writable then record p { writeopen = false } else record p { readopen = false } in
    record {
      pipe = p';
      freed = not p'.readopen && not p'.writeopen;
      woken = (if writable then nread_chan else nwrite_chan) ∷ [];
    }
