-- ===== src/Proc/Tests.antt =====
-- Runs of proc.c on a small table, and instances of its theorems.
use ducko_unix.Prelude.{
  ℕ, ◌≡◌, refl, ◌⊎◌, Bool, true, false, ◌&&◌, [], ◌∷◌, arith, some, none, All, get_elem?, done,
}
use ducko_unix.Proc.{
  Proc, Table, state_eq, unused, embryo, sleeping, runnable, running, zombie, at_slot, reap,
  find_state, allocproc, exit, wait, reaped, no_child, asleep, wakeup, kill, find_zombie, have_kids,
  getproccount, pass_children, has_zombie, wake_one, is_parent,
}
use ducko_unix.Proc.System.{Runs, Reach, here, next, exits}
use ducko_unix.Proc.Pids.{IsNumbered, Reach-IsNumbered}
use ducko_unix.Proc.Wait.{wait_lem, IsChildOf, cleared}
use ducko_unix.Proc.Kill.{kill_zero-allocproc}

abbrev free : Proc
free = record {
  sz = 0;
  pgdir = none;
  kstack = none;
  state = unused;
  pid = 0;
  parent = none;
  chan = 0;
  killed = false;
  name = [];
}

-- init runs in slot 0, its child 2 runs in slot 1 and has the child 3, a zombie, in slot 2.
abbrev init : Proc
init = record free { state = sleeping; pid = 1; chan = 1 }

abbrev shell : Proc
shell = record free { state = running; pid = 2; parent = some 0 }

abbrev orphan : Proc
orphan = record free { state = zombie; pid = 3; parent = some 1 }

abbrev table : Table
table = record { procs = init ∷ shell ∷ orphan ∷ free ∷ []; next_pid = 4; init_proc = 0 }

-- The shell exits: its child is init's, and init is woken for both reasons.
abbrev after_exit : Table
after_exit = record table {
  procs =
      record init { state = runnable }
      ∷ record shell { state = zombie }
      ∷ record orphan { parent = some 0 }
      ∷ free
      ∷ [];
}

exit_result : exit 1 shell table ≡ done after_exit
unfolding exit pass_children has_zombie wakeup wake_one
exit_result = refl

init_reaps :
    wait 0 false after_exit
    ≡ reaped 2 (record after_exit { procs = at_slot 1 reap after_exit.procs })
unfolding wait find_zombie have_kids
init_reaps = refl

count_result : (getproccount table.procs ≡ 3)
unfolding getproccount
count_result = refl

shell-Runs : Runs table 1 shell
shell-Runs = record { here = refl; state = refl }

history : Reach table after_exit
history = next here (exits 1 shell after_exit shell-Runs exit_result)

table-IsNumbered : IsNumbered 4 table.procs
table-IsNumbered = record { below = ground arith; once = λ x. ground arith }

Reach-IsNumbered_example : IsNumbered 4 after_exit.procs
unfolding history
Reach-IsNumbered_example = Reach-IsNumbered history table-IsNumbered (omega arith)

wait_lem_example :
    ((i : ℕ) × (p : Proc) × (get_elem? after_exit.procs i ≡ some p)
      × (p.state ≡ zombie)
      × IsChildOf 0 p
      × (wait 0 false after_exit
          ≡ reaped p.pid (record after_exit { procs = at_slot i cleared after_exit.procs })))
    ⊎ (All (λ p. (is_parent 0 p && state_eq p.state zombie) ≡ false) after_exit.procs
        × (((wait 0 false after_exit ≡ no_child)
              × ((◌≡◌ {A = Bool} false true) ⊎ All (λ p. is_parent 0 p ≡ false) after_exit.procs))
            ⊎ ((wait 0 false after_exit ≡ asleep)
                × (◌≡◌ {A = Bool} false false)
                × ((i : ℕ) × (p : Proc) × (get_elem? after_exit.procs i ≡ some p)
                    × IsChildOf 0 p))))
wait_lem_example = wait_lem 0 false after_exit

kill_zero-allocproc_example :
    let (found, t1) = kill 0 table in
    (found ≡ true)
    × ((q : Proc) × (get_elem? (allocproc (some 9) t1).1.procs 3 ≡ some q)
        × (q.state ≡ embryo)
        × (q.killed ≡ true))
unfolding find_state
kill_zero-allocproc_example = kill_zero-allocproc table 3 9 refl (ground arith)
