-- ===== src/Pipe/Tests.antt =====
-- Runs of pipe.c on concrete inputs, and instances of its theorems.
use ducko_unix.Prelude.{ℕ, ◌-◌, ◌^◌, ◌≡◌, refl, true, false, [], ◌∷◌, arith, replicate}
use ducko_unix.Pipe.{Pipe, failed, fresh, pipewrite, piperead}
use ducko_unix.Pipe.Window.{contents, used}
use ducko_unix.Pipe.System.{
  Sys, Reach, start, here, next, write, read, Inv, Reach-Inv, after_write, after_read,
  killed_write-silent,
}

abbrev zeros : ℕ → ℕ
zeros i = 0

-- Both counters stand just below 2 ^ 32; the two bytes are 7 and 8.
abbrev near_wrap : Pipe
near_wrap = record {
  buf = λ i. i - 503;
  nread = 2 ^ 32 - 2;
  nwrite = 0;
  readopen = true;
  writeopen = true;
}

contents-near_wrap : contents near_wrap ≡ 7 ∷ 8 ∷ []
contents-near_wrap = refl

write_wraps : contents (pipewrite false near_wrap (9 ∷ 10 ∷ [])).pipe ≡ 7 ∷ 8 ∷ 9 ∷ 10 ∷ []
unfolding pipewrite
write_wraps = refl

read_wraps : (piperead false near_wrap 5).bytes ≡ 7 ∷ 8 ∷ []
unfolding piperead
read_wraps = refl

-- A reader goes to sleep on the empty pipe, a writer sends three bytes, and the reader takes two.
abbrev sleeping : Sys
sleeping = after_read (start zeros) false 2

abbrev written : Sys
written = after_write sleeping false (1 ∷ 2 ∷ 3 ∷ []) (1 ∷ 2 ∷ 3 ∷ [])

abbrev taken : Sys
taken = after_read written false 2

history : Reach zeros taken
unfolding pipewrite piperead fresh
history =
    next
      (next (next here (read false 2 refl))
        (write false (1 ∷ 2 ∷ 3 ∷ []) (1 ∷ 2 ∷ 3 ∷ []) refl refl))
      (read false 2 refl)

taken_result : (taken.received ≡ 1 ∷ 2 ∷ []) × (taken.readers_wait ≡ false)
unfolding pipewrite piperead fresh
taken_result = (refl, refl)

Reach-Inv_example : Inv taken
Reach-Inv_example = Reach-Inv zeros history

killed_write-silent_example :
    let r = pipewrite true near_wrap (replicate 511 1) in
    (r.status ≡ failed) × (r.woken ≡ []) × (used r.pipe ≡ 512)
killed_write-silent_example =
    killed_write-silent near_wrap (replicate 511 1) (omega arith) (omega arith)
