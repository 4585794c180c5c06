-- ===== src/Syscall/Tests.antt =====
-- A process of two pages, whose stack pointer is 4096: the argument 0 is 5000, where a text of two
-- letters stands.
use ducko_unix.Prelude.{
  ℕ, ◌+◌, ◌-◌, ◌<◌, ◌≤◌, ◌==◌, ◌≡◌, ◌↔◌, refl, false, some, none, done, arith, if◌then◌else◌,
}
use ducko_unix.Vm.{word}
use ducko_unix.Vm.Sample.{dir, small, small-IsSpace}
use ducko_unix.Syscall.{
  Task, Grown, word_at, is_negative, fetchint, argint, argptr, argstr, growproc,
}
use ducko_unix.Syscall.Arguments.{arg_addr, IsText, argptr_lem, argstr_lem}
use ducko_unix.Syscall.Grow.{Shrunk, growproc_lem}

abbrev bytes : ℕ → ℕ
bytes a =
    if a == 4100
    then 136
    else if a == 4101
    then 19
    else if a == 5000
    then 104
    else if a == 5001
    then 105
    else 0

abbrev task : Task
task = record { sz = 8192; esp = 4096; mem = bytes }

block : argptr task 0 3192 ≡ some 5000
unfolding argptr argint fetchint
block = refl

block_too_long : argptr task 0 3193 ≡ none
unfolding argptr argint fetchint
block_too_long = refl

argptr_lem_example : (argptr task 0 3192 ≡ some 5000) ↔ (
    (arg_addr task 0 + 4 ≤ task.sz)
    × (word_at task.mem (arg_addr task 0) ≡ 5000)
    × (is_negative 3192 ≡ false)
    × (5000 < task.sz)
    × (5000 + 3192 ≤ task.sz))
argptr_lem_example = argptr_lem task 0 3192 5000 (omega arith) (omega arith)

argstr_lem_example : (argstr task 0 ≡ some (5000, 2)) ↔ (
    (arg_addr task 0 + 4 ≤ task.sz)
    × (word_at task.mem (arg_addr task 0) ≡ 5000)
    × IsText task 5000 2)
argstr_lem_example = argstr_lem task 0 5000 2 (omega arith)

growproc_lem_example :
    (g : Grown) × (growproc 2148532224 dir 8192 (word - 8192) small ≡ done g)
    × Shrunk 2148532224 small dir 8192 8192 g
growproc_lem_example =
    growproc_lem 2148532224 small dir 8192 8192 small-IsSpace (omega arith) (omega arith)
      (omega arith)
