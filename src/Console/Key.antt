-- ===== src/Console/Key.antt =====
-- One turn of `consoleintr` (console.c) for every key.
use ducko_unix.Prelude.{
  ℕ, ◌+◌, ◌-◌, ◌<◌, ltb, ◌==◌, ◌≡◌, ◌≢◌, subst, Bool, true, false, ◌&&◌, ◌||◌, not, List, [], ◌∷◌,
  if◌then◌else◌, arith, Bool-cases, inl, inr,
}
use ducko_unix.Console.{
  input_buf, add_u32, sub_u32, Input, newline, ctrl_d, insert, key, consoleintr,
}
use ducko_unix.Console.Edit.{
  used, ready, at, IsInput, IsEdited, stay, kill_line-IsEdited, backspace-IsEdited, stored,
  put_char-at, put_char-IsEdited, hand_over-IsEdited,
}

-- The key is a byte for the line, and there is room for it.
abbrev pub writes : Input → ℕ → Bool
writes s c = not (c == 16 || c == 21 || c == 8 || c == 127 || c == 0) && ltb (used s) input_buf

abbrev pub used_after : Input → ℕ → ℕ
used_after s c =
    if writes s c
    then used s + 1
    else if c == 21
    then ready s
    else if (c == 8 || c == 127) && ltb (ready s) (used s)
    then used s - 1
    else used s

abbrev pub ready_after : Input → ℕ → ℕ
ready_after s c =
    if writes s c && (stored c == newline || c == ctrl_d || used s + 1 == input_buf)
    then used s + 1
    else ready s

-- A byte of the line, stored, and handed over when the line ends with it.
record IsInserted (s t : Input) (c n m : ℕ) : Type 0 where
  edited : IsEdited s t n m
  byte : at t (used s) ≡ stored c

insert_lem :
    (s : Input) (c : ℕ)
    → IsInput s
    → c ≢ 0
    → used s < input_buf
    → IsInserted s (insert s c) c (used s + 1) (
        if stored c == newline || c == ctrl_d || used s + 1 == input_buf
        then used s + 1
        else ready s)
insert_lem s c v nonzero room =
    let typed : (c == 0) ≡ false = ground arith in
    let roomy : ltb (sub_u32 s.e s.r) input_buf ≡ true = ground arith in
    let full : (add_u32 s.e 1 == add_u32 s.r input_buf) ≡ (used s + 1 == input_buf) =
      ground (arith, v) in
    let ctrl : (stored c == ctrl_d) ≡ (c == ctrl_d) = ground arith in
    rw (typed, roomy, full, ctrl)
      (elim (Bool-cases (stored c == newline || c == ctrl_d || used s + 1 == input_buf)) [
        | inl ended ↦ rw ended record {
          edited = hand_over-IsEdited s (stored c) v room;
          byte = ground (arith, put_char-at s (stored c) (used s) v room (omega arith));
        }
        | inr open_line ↦ rw open_line record {
          edited = put_char-IsEdited s (stored c) v room (ground (arith, open_line));
          byte = ground (arith, put_char-at s (stored c) (used s) v room (omega arith));
        }
      ])

cast : {s t : Input} {n n' m m' : ℕ} → IsEdited s t n m → n ≡ n' → m ≡ m' → IsEdited s t n' m'
cast {s = s} {t = t} {n' = n'} {m = m} e hn hm =
    subst (λ k. IsEdited s t n' k) hm (subst (λ k. IsEdited s t k m) hn e)

-- From a valid ring, every key leaves a valid one in which older bytes and the reader's place
-- are as before. ^P changes nothing, ^U empties the edited line, a backspace drops its last byte
-- if it has one, any other byte but 0 is stored if there is room, and a newline, a ^D or the
-- last free place hands the line over.
pub key_lem :
    (s : Input) (c : ℕ)
    → IsInput s
    → IsEdited s (key s c) (used_after s c) (ready_after s c)
      × (writes s c ≡ true → at (key s c) (used s) ≡ stored c)
unfolding key
key_lem s c v = elim (Bool-cases (c == 16)) [
  | inl list ↦
      let n : used s ≡ used_after s c = ground (arith, list) in
      let m : ready s ≡ ready_after s c = ground (arith, list) in
      (cast (rw list (stay s v)) n m, λ w. ground (arith, w, list))
  | inr c1 ↦ elim (Bool-cases (c == 21)) [
    | inl kill ↦
        let n : ready s ≡ used_after s c = ground (arith, kill) in
        let m : ready s ≡ ready_after s c = ground (arith, kill) in
        (
          cast (rw (c1, kill) (kill_line-IsEdited input_buf s v (omega (arith, v.room)))) n m,
          λ w. ground (arith, w, kill),
        )
    | inr c2 ↦ elim (Bool-cases (c == 8 || c == 127)) [
      | inl back ↦
          let n : (if used s == ready s then used s else used s - 1) ≡ used_after s c =
            ground (arith, v.order, back, c2) in
          let m : ready s ≡ ready_after s c = ground (arith, back) in
          (cast (rw (c1, c2, back) (backspace-IsEdited s v)) n m, λ w. ground (arith, w, back))
      | inr c3 ↦ elim (Bool-cases (writes s c)) [
        | inl fits ↦
            let new = insert_lem s c v (ground (arith, fits)) (ground (arith, fits)) in
            let n : used s + 1 ≡ used_after s c = ground (arith, fits) in
            let m : (if stored c == newline || c == ctrl_d || used s + 1 == input_buf
                  then used s + 1
                  else ready s)
                ≡ ready_after s c =
              ground (arith, fits) in
            (cast (rw (c1, c2, c3) new.edited) n m, λ w. rw (c1, c2, c3) new.byte)
        | inr stuck ↦
            let n : used s ≡ used_after s c = ground (arith, stuck, c2, c3) in
            let m : ready s ≡ ready_after s c = ground (arith, stuck) in
            let unchanged : insert s c ≡ s = ground (arith, stuck, c1, c2, c3) in
            (cast (rw (c1, c2, c3) (rw unchanged (stay s v))) n m, λ w. ground (arith, w, stuck))
      ]
    ]
  ]
]

-- So the ring stays valid whatever is typed.
pub consoleintr-IsInput : (cs : List ℕ) (s : Input) → IsInput s → IsInput (consoleintr s cs)
unfolding consoleintr
consoleintr-IsInput [] s v = v
consoleintr-IsInput (c ∷ cs) s v =
    let (edited, byte) = key_lem s c v in consoleintr-IsInput cs (key s c) edited.valid
