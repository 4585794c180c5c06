-- ===== src/Console.antt =====
-- console.c: the input line that the keyboard edits and processes read. The functions are critical
-- sections of `cons.lock`; a reader that was asleep enters its loop again with what is left.
pub mod Edit
pub mod Key
pub mod Read
mod Tests
use ducko_unix.Prelude.{
  ℕ, zero, suc, ◌+◌, ◌-◌, ◌%◌, ◌^◌, ltb, ◌==◌, Bool, true, false, ◌&&◌, ◌||◌, not, List, [], ◌∷◌,
  ◌++◌, if◌then◌else◌, update,
}

abbrev pub input_buf : ℕ
input_buf = 128

-- `uint` arithmetic.
abbrev pub add_u32 : ℕ → ℕ → ℕ
add_u32 a b = (a + b) % 2 ^ 32

abbrev pub sub_u32 : ℕ → ℕ → ℕ
sub_u32 a b = (a + 2 ^ 32 - b) % 2 ^ 32

pub record Input : Type 0 where
  pub buf : ℕ → ℕ
  pub r : ℕ
  pub w : ℕ
  pub e : ℕ

-- '\n', '\r', ^D, ^P, ^U, ^H and the delete key.
abbrev pub newline : ℕ
newline = 10

abbrev pub ctrl_d : ℕ
ctrl_d = 4

-- `input.e--` and one BACKSPACE to the screen.
abbrev pub erase : Input → Input
erase s = record s { e = sub_u32 s.e 1 }

-- The loop of ^U. The ring has 128 places, so 128 turns are enough.
unfoldable pub kill_line : ℕ → Input → Input
kill_line zero s = s
kill_line (suc fuel) s =
    let more = kill_line fuel (erase s) in
    if not (s.e == s.w) && not (s.buf (sub_u32 s.e 1 % input_buf) == newline) then more else s

abbrev pub backspace : Input → Input
backspace s = if s.e == s.w then s else erase s

-- `input.buf[input.e++ % INPUT_BUF] = c`, and the test that ends a line.
abbrev pub put_char : Input → ℕ → Input
put_char s c = record s { buf = update s.buf (s.e % input_buf) c; e = add_u32 s.e 1 }

abbrev pub ends_line : Input → ℕ → Bool
ends_line s c = c == newline || c == ctrl_d || s.e == add_u32 s.r input_buf

-- A line that is handed over, with a wakeup of the readers.
abbrev pub hand_over : Input → Input
hand_over s = record s { w = s.e }

abbrev pub insert : Input → ℕ → Input
insert s c0 =
    if not (c0 == 0) && ltb (sub_u32 s.e s.r) input_buf
    then (let c = if c0 == 13 then newline else c0 in
        let t = put_char s c in if ends_line t c then hand_over t else t)
    else s

-- One turn of the loop of `consoleintr`; ^P only asks for a process listing.
unfoldable pub key : Input → ℕ → Input
unfolding kill_line
key s c =
    if c == 16
    then s
    else if c == 21
    then kill_line input_buf s
    else if c == 8 || c == 127
    then backspace s
    else insert s c

-- `consoleintr` on what `getc` returns before it returns a negative number.
unfoldable pub consoleintr : Input → List ℕ → Input
unfolding key
consoleintr s [] = s
consoleintr s (c ∷ cs) = consoleintr (key s c) cs

pub data Status : Type 0 where
  returned failed asleep : Status

-- What a section of `consoleread` leaves: the bytes stored, how many it still wants, the ring.
pub record Taken : Type 0 where
  pub bytes : List ℕ
  pub left : ℕ
  pub input : Input
  pub status : Status

-- `n` bytes are wanted of `target`; `got` is what was stored in this section.
unfoldable pub consoleread : ℕ → ℕ → Bool → List ℕ → Input → Taken
consoleread target zero killed got s = record {
  bytes = got;
  left = 0;
  input = s;
  status = returned;
}
consoleread target (suc n) killed got s =
    let c = s.buf (s.r % input_buf) in
    let t = record s { r = add_u32 s.r 1 } in
    let more = consoleread target n killed (got ++ c ∷ []) t in
    if s.r == s.w
    then record { bytes = got; left = suc n; input = s; status = if killed then failed else asleep }
    else if c == ctrl_d
    then record {
      bytes = got;
      left = suc n;
      input = if ltb (suc n) target then record t { r = sub_u32 t.r 1 } else t;
      status = returned;
    }
    else if c == newline
    then record { bytes = got ++ c ∷ []; left = n; input = t; status = returned }
    else more
