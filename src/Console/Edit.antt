-- ===== src/Console/Edit.antt =====
-- The line editor of `consoleintr` (console.c).
use ducko_unix.Prelude.{
  ℕ, zero, suc, ◌+◌, ◌-◌, ◌%◌, ◌^◌, ◌<◌, ◌≤◌, ◌==◌, ◌≡◌, ◌≢◌, refl, ap, subst, true, false,
  if◌then◌else◌, arith, Bool-cases, inl, inr,
}
use ducko_unix.Console.{
  input_buf, sub_u32, Input, newline, kill_line, erase, backspace, put_char, hand_over,
}

-- How many bytes stand in the ring, and how many of them readers may take; the others are the line
-- that is edited.
abbrev pub used : Input → ℕ
used s = sub_u32 s.e s.r

abbrev pub ready : Input → ℕ
ready s = sub_u32 s.w s.r

abbrev pub at : Input → ℕ → ℕ
at s k = s.buf ((s.r + k) % input_buf)

pub record IsInput (s : Input) : Type 0 where
  pub r_word : s.r < 2 ^ 32
  pub w_word : s.w < 2 ^ 32
  pub e_word : s.e < 2 ^ 32
  pub order : ready s ≤ used s
  pub room : used s ≤ input_buf
  pub no_newline : (k : ℕ) → ready s ≤ k → k < used s → at s k ≢ newline

-- What a key does to the line: `t` has `n` bytes, the first of them as they were, and `m` of them
-- are handed over.
pub record IsEdited (s t : Input) (n m : ℕ) : Type 0 where
  pub valid : IsInput t
  pub r_same : t.r ≡ s.r
  pub used_now : used t ≡ n
  pub ready_now : ready t ≡ m
  pub kept : (k : ℕ) → k < n → k < used s → at t k ≡ at s k

erase-IsEdited :
    (s : Input) → IsInput s → ready s < used s → IsEdited s (erase s) (used s - 1) (ready s)
erase-IsEdited s v h = record {
  valid = record {
    r_word = v.r_word;
    w_word = v.w_word;
    e_word = omega arith;
    order = omega arith;
    room = omega arith;
    no_newline = λ k lo hi. v.no_newline k lo (omega arith);
  };
  r_same = refl;
  used_now = omega arith;
  ready_now = refl;
  kept = λ k lo hi. refl;
}

pub stay : (s : Input) → IsInput s → IsEdited s s (used s) (ready s)
stay s v = record {
  valid = v;
  r_same = refl;
  used_now = refl;
  ready_now = refl;
  kept = λ k lo hi. refl;
}

-- The last byte of the edited line is no newline, so the second test of ^U never stops it.
last_byte :
    (s : Input)
    → IsInput s
    → ready s < used s
    → (s.buf (sub_u32 s.e 1 % input_buf) == newline) ≡ false
last_byte s v h =
    let e = v.e_word in
    let r = v.r_word in
    let place : (s.r + (used s - 1)) % input_buf ≡ sub_u32 s.e 1 % input_buf = omega arith in
    let differs : s.buf (sub_u32 s.e 1 % input_buf) ≢ newline =
      subst (λ i. s.buf i ≢ newline) place
        (v.no_newline (used s - 1) (omega arith) (omega arith)) in
    ground (arith, differs)

pub kill_line-IsEdited :
    (fuel : ℕ) (s : Input)
    → IsInput s
    → used s ≤ ready s + fuel
    → IsEdited s (kill_line fuel s) (ready s) (ready s)
unfolding kill_line
kill_line-IsEdited zero s v h =
    let all : used s ≡ ready s = omega arith in subst (λ n. IsEdited s s n (ready s)) all (stay s v)
kill_line-IsEdited (suc fuel) s v h = elim (Bool-cases (s.e == s.w)) [
  | inl end ↦
      let same : s.e ≡ s.w = ground (arith, end) in
      let all : used s ≡ ready s = ap (λ e. sub_u32 e s.r) same in
      rw end (subst (λ n. IsEdited s s n (ready s)) all (stay s v))
  | inr more ↦
      let left : ready s < used s = ground (arith, more) in
      let one = erase-IsEdited s v left in
      let rest = kill_line-IsEdited fuel (erase s) one.valid (omega arith) in
      rw (more, last_byte s v left)
        record {
          valid = rest.valid;
          r_same = rest.r_same;
          used_now = rest.used_now;
          ready_now = rest.ready_now;
          kept = λ k lo hi. rest.kept k lo (omega arith);
        }
]

pub backspace-IsEdited :
    (s : Input)
    → IsInput s
    → IsEdited s (backspace s) (if used s == ready s then used s else used s - 1) (ready s)
backspace-IsEdited s v = elim (Bool-cases (s.e == s.w)) [
  | inl end ↦ let all : (used s == ready s) ≡ true = ground (arith, end) in rw (end, all) (stay s v)
  | inr more ↦
      let left : (used s == ready s) ≡ false = ground (arith, more) in
      rw (more, left) (erase-IsEdited s v (ground (arith, left)))
]

-- A byte is stored while the ring has room; '\r' counts as '\n'.
abbrev pub stored : ℕ → ℕ
stored c = if c == 13 then newline else c

pub put_char-at :
    (s : Input) (c k : ℕ)
    → IsInput s
    → used s < input_buf
    → k ≤ used s
    → at (put_char s c) k ≡ (if k == used s then c else at s k)
put_char-at s c k v room h =
    let here : (s.e % input_buf == (s.r + k) % input_buf) ≡ (k == used s) = ground arith in
    ground (arith, here)

pub put_char-IsEdited :
    (s : Input) (c : ℕ)
    → IsInput s
    → used s < input_buf
    → c ≢ newline
    → IsEdited s (put_char s c) (used s + 1) (ready s)
put_char-IsEdited s c v room other =
    let more : used (put_char s c) ≡ used s + 1 = omega arith in
    record {
      valid = record {
        r_word = v.r_word;
        w_word = v.w_word;
        e_word = omega arith;
        order = omega arith;
        room = omega arith;
        no_newline = λ k lo hi.
            let old = v.no_newline k lo in
            ground (arith, put_char-at s c k v room (omega arith), old);
      };
      r_same = refl;
      used_now = more;
      ready_now = refl;
      kept = λ k lo hi. ground (arith, put_char-at s c k v room (omega arith));
    }

pub hand_over-IsEdited :
    (s : Input) (c : ℕ)
    → IsInput s
    → used s < input_buf
    → IsEdited s (hand_over (put_char s c)) (used s + 1) (used s + 1)
hand_over-IsEdited s c v room =
    let more : used (put_char s c) ≡ used s + 1 = omega arith in
    record {
      valid = record {
        r_word = v.r_word;
        w_word = omega arith;
        e_word = omega arith;
        order = omega arith;
        room = omega arith;
        no_newline = λ k lo hi. absurd (omega arith);
      };
      r_same = refl;
      used_now = more;
      ready_now = more;
      kept = λ k lo hi. ground (arith, put_char-at s c k v room (omega arith));
    }
