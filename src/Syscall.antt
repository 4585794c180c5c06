-- ===== src/Syscall.antt =====
-- syscall.c and parts of sysproc.c and proc.c: the arguments of system calls, checked against the
-- size of the process, `sbrk` and `sleep`. An `int` is the 32-bit word that holds it.
pub mod Arguments
pub mod Grow
pub mod Ticks
mod Tests
use ducko_unix.Prelude.{
  ℕ, zero, suc, ◌+◌, ◌-◌, ◌*◌, ◌%◌, ◌^◌, ltb, leb, ◌==◌, Bool, true, false, ◌||◌, Option, none,
  some, if◌then◌else◌, Outcome, done, ◌>>=◌,
}
use ducko_unix.Vm.{Vm, word, allocuvm, deallocuvm}

-- What the checks read of `struct proc`: `sz`, `tf->esp`, and the bytes at its addresses.
pub record Task : Type 0 where
  pub sz : ℕ
  pub esp : ℕ
  pub mem : ℕ → ℕ

abbrev pub is_negative : ℕ → Bool
is_negative n = leb 2147483648 n

-- `*(int*)(addr)`.
abbrev pub word_at : (ℕ → ℕ) → ℕ → ℕ
word_at mem a = mem a + mem (a + 1) * 256 + mem (a + 2) * 65536 + mem (a + 3) * 16777216

-- `none` is -1.
unfoldable pub fetchint : Task → ℕ → Option ℕ
fetchint t addr =
    if leb t.sz addr || ltb t.sz ((addr + 4) % word) then none else some (word_at t.mem addr)

-- The loop of `fetchstr` at `s`, with `k` bytes before the end of the process; `n` is `s - *pp`.
unfoldable pub find_nul : ℕ → ℕ → ℕ → (ℕ → ℕ) → Option ℕ
find_nul zero s n mem = none
find_nul (suc k) s n mem =
    let rest = find_nul k (s + 1) (n + 1) mem in if mem s == 0 then some n else rest

unfoldable pub fetchstr : Task → ℕ → Option ℕ
unfolding find_nul
fetchstr t addr = if leb t.sz addr then none else find_nul (t.sz - addr) addr 0 t.mem

unfoldable pub argint : Task → ℕ → Option ℕ
unfolding fetchint
argint t n = fetchint t ((t.esp + 4 + 4 * n) % word)

unfoldable pub argptr : Task → ℕ → ℕ → Option ℕ
unfolding argint
argptr t n size = elim (argint t n) [
  | none ↦ none
  | some i ↦ if is_negative size || leb t.sz i || ltb t.sz ((i + size) % word) then none else some i
]

-- The pointer and the length of its text.
unfoldable pub argstr : Task → ℕ → Option (ℕ × ℕ)
unfolding argint fetchstr
argstr t n = elim (argint t n) [
  | none ↦ none
  | some addr ↦ elim (fetchstr t addr) [ none ↦ none | some len ↦ some (addr, len) ]
]

-- What `growproc` returns (whether it is 0), and leaves of `sz` and of memory.
pub record Grown : Type 0 where
  pub is_ok : Bool
  pub sz : ℕ
  pub vm : Vm

abbrev pub resized : ℕ → ℕ × Vm → Grown
resized old r =
    if r.0 == 0
    then record { is_ok = false; sz = old; vm = r.1 }
    else record { is_ok = true; sz = r.0; vm = r.1 }

unfoldable pub growproc : ℕ → ℕ → ℕ → ℕ → Vm → Outcome Grown
unfolding allocuvm deallocuvm
growproc kernel_end pgdir sz n s =
    if n == 0
    then done (record { is_ok = true; sz = sz; vm = s })
    else if is_negative n
    then (deallocuvm kernel_end pgdir sz ((sz + n) % word) s >>= λ r. done (resized sz r))
    else (allocuvm kernel_end pgdir sz ((sz + n) % word) s >>= λ r. done (resized sz r))

-- The answer of `sys_sbrk`, where the memory of the process is `s`, and what `growproc` left.
unfoldable pub sys_sbrk : ℕ → ℕ → Task → Vm → Outcome (Option ℕ × ℕ × Vm)
unfolding growproc argint
sys_sbrk kernel_end pgdir t s = elim (argint t 0) [
  | none ↦ done (none, t.sz, s)
  | some n ↦ growproc kernel_end pgdir t.sz n s >>= λ g.
      done (if g.is_ok then some t.sz else none, g.sz, g.vm)
]

-- A turn of the loop of `sys_sleep`.
pub data Slept : Type 0 where
  finished killed asleep : Slept

-- The comparison is of unsigned numbers.
unfoldable pub sys_sleep : Bool → ℕ → ℕ → ℕ → Slept
sys_sleep is_killed ticks ticks0 n =
    if ltb ((ticks + word - ticks0) % word) n
    then (if is_killed then killed else asleep)
    else finished
