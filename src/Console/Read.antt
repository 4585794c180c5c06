-- ===== src/Console/Read.antt =====
-- `consoleread` (console.c) returns a line of what was handed over.
use ducko_unix.Prelude.{
  ℕ, zero, suc, ◌%◌, ◌^◌, ◌<◌, ltb, ◌==◌, ◌≡◌, refl, Bool, List, [], ◌∷◌, ◌++◌, if◌then◌else◌,
  arith, Bool-cases, inl, inr,
}
use ducko_unix.Console.{
  input_buf, add_u32, sub_u32, Input, newline, ctrl_d, consoleread, Status, returned, failed,
  asleep,
}

abbrev reads : (ℕ → ℕ) → ℕ → ℕ → List ℕ
reads buf i zero = []
reads buf i (suc k) = buf (i % input_buf) ∷ reads buf (add_u32 i 1) k

-- The bytes that readers may take, the oldest first.
abbrev pub unread : Input → List ℕ
unread s = reads s.buf s.r (sub_u32 s.w s.r)

-- What is taken of a text: up to `n` bytes, through the first newline, up to a ^D. A ^D that
-- follows other bytes of the same call is left for the next one.
abbrev pub take_line : ℕ → ℕ → Bool → List ℕ → List ℕ → List ℕ × List ℕ × Status
take_line target zero killed got text = (got, text, returned)
take_line target (suc n) killed got [] = (got, [], if killed then failed else asleep)
take_line target (suc n) killed got (c ∷ text) =
    let more = take_line target n killed (got ++ c ∷ []) text in
    if c == ctrl_d
    then (got, if ltb (suc n) target then c ∷ text else text, returned)
    else if c == newline
    then (got ++ c ∷ [], text, returned)
    else more

-- With indices that are 32-bit words, a section of `consoleread` returns, fails or sleeps with
-- the bytes and the rest of the text that `take_line` has for the text in the ring.
pub consoleread_lem :
    (target n : ℕ) (killed : Bool) (got : List ℕ) (s : Input)
    → s.r < 2 ^ 32
    → s.w < 2 ^ 32
    → (let t = consoleread target n killed got s in
        take_line target n killed got (unread s) ≡ (t.bytes, unread t.input, t.status))
unfolding consoleread
consoleread_lem target zero killed got s r w = refl
consoleread_lem target (suc n) killed got s r w = elim (Bool-cases (s.r == s.w)) [
  | inl none_left ↦
      let zero_left : sub_u32 s.w s.r ≡ 0 = ground (arith, none_left) in
      rw (zero_left, none_left) (rw zero_left refl)
  | inr more ↦
      let k = sub_u32 s.w (add_u32 s.r 1) in
      let step : sub_u32 s.w s.r ≡ suc k = ground (arith, more) in
      let back : sub_u32 (add_u32 s.r 1) 1 ≡ s.r = omega arith in
      rw (step, more)
        (elim (Bool-cases (s.buf (s.r % input_buf) == ctrl_d)) [
          | inl eof ↦ rw eof (elim (Bool-cases (ltb (suc n) target)) [
            | inl later ↦ rw (later, back, step) refl
            | inr first ↦ rw first refl
          ])
          | inr plain ↦ rw plain (elim (Bool-cases (s.buf (s.r % input_buf) == newline)) [
            | inl end ↦ rw end refl
            | inr inside ↦ rw inside (
                consoleread_lem target n killed (got ++ s.buf (s.r % input_buf) ∷ [])
                  (record s { r = add_u32 s.r 1 }) (omega arith) w)
          ])
        ])
]
