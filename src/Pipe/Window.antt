-- ===== src/Pipe/Window.antt =====
-- The bytes that a pipe holds, oldest first, and its representation invariant (pipe.c).
use ducko_unix.Prelude.{
  ℕ, zero, suc, ◌+◌, ◌-◌, ◌%◌, ◌^◌, ◌≤◌, ◌<◌, ◌≡◌, refl, List, [], ◌∷◌, ◌++◌, ap, arith, update,
  length, true, false, ◌≢◌,
}
use ducko_unix.Pipe.{Pipe, pipe_size, add_u32, is_full, is_empty, put_byte, drop_byte, head_byte}

-- `nwrite - nread`, as a `uint`.
abbrev pub used : Pipe → ℕ
used p = (p.nwrite + 2 ^ 32 - p.nread) % 2 ^ 32

pub record IsValid (p : Pipe) : Type 0 where
  pub read_u32 : p.nread < 2 ^ 32
  pub write_u32 : p.nwrite < 2 ^ 32
  pub fits : used p ≤ pipe_size

-- `n` bytes from the counter value `r` on.
abbrev pub window : (ℕ → ℕ) → ℕ → ℕ → List ℕ
window buf r zero = []
window buf r (suc n) = buf (r % pipe_size) ∷ window buf (add_u32 r 1) n

abbrev pub contents : Pipe → List ℕ
contents p = window p.buf p.nread (used p)

pub length-window : (buf : ℕ → ℕ) (r n : ℕ) → length (window buf r n) ≡ n
length-window buf r zero = refl
length-window buf r (suc n) = ap suc (length-window buf (add_u32 r 1) n)

-- A slot outside the window can be overwritten. PIPESIZE divides 2 ^ 32, so a wrap of the counter
-- does not move a slot.
window-update_ne :
    (buf : ℕ → ℕ) (r n j i x : ℕ)
    → n + j < pipe_size
    → i ≡ (r + n + j) % pipe_size
    → window (update buf i x) r n ≡ window buf r n
window-update_ne buf r zero j i x h e = refl
window-update_ne buf r (suc n) j i x h e =
    ground (arith, window-update_ne buf (add_u32 r 1) n j i x (omega arith) (omega arith))

pub window-update :
    (buf : ℕ → ℕ) (r n i x : ℕ)
    → n < pipe_size
    → i ≡ (r + n) % pipe_size
    → window (update buf i x) r (suc n) ≡ window buf r n ++ x ∷ []
window-update buf r zero i x h e = ground arith
window-update buf r (suc n) i x h e =
    ground (arith, window-update buf (add_u32 r 1) n i x (omega arith) (omega arith))

-- `window` matches on `suc`, and the code tests `nread == nwrite`.
window_pos :
    (buf : ℕ → ℕ) (r n : ℕ)
    → n ≢ 0
    → window buf r n ≡ buf (r % pipe_size) ∷ window buf (add_u32 r 1) (n - 1)
window_pos buf r zero h = absurd (h refl)
window_pos buf r (suc n) h =
    ap (λ k. buf (r % pipe_size) ∷ window buf (add_u32 r 1) k) (omega arith)

pub used-full : {p : Pipe} → IsValid p → is_full p ≡ true → used p ≡ pipe_size
used-full v h = ground arith

pub used-not_full : {p : Pipe} → IsValid p → is_full p ≡ false → used p < pipe_size
used-not_full v h = ground arith

pub contents-empty : {p : Pipe} → IsValid p → is_empty p ≡ true → contents p ≡ []
contents-empty {p} v h = let e : used p ≡ 0 = ground arith in rw e

pub put_byte-IsValid : {p : Pipe} (b : ℕ) → IsValid p → is_full p ≡ false → IsValid (put_byte p b)
unfolding put_byte
put_byte-IsValid b v h = ground arith

pub contents-put_byte :
    {p : Pipe} (b : ℕ)
    → IsValid p
    → is_full p ≡ false
    → contents (put_byte p b) ≡ contents p ++ b ∷ []
unfolding put_byte
contents-put_byte {p} b v h =
    let e : used (put_byte p b) ≡ suc (used p) = ground arith in
    rw e (
      window-update p.buf p.nread (used p) (p.nwrite % pipe_size) b (used-not_full v h)
        (omega arith))

pub drop_byte-IsValid : {p : Pipe} → IsValid p → is_empty p ≡ false → IsValid (drop_byte p)
unfolding drop_byte
drop_byte-IsValid v h = ground arith

pub contents-drop_byte :
    {p : Pipe} → IsValid p → is_empty p ≡ false → contents p ≡ head_byte p ∷ contents (drop_byte p)
unfolding drop_byte
contents-drop_byte {p} v h =
    let e : used (drop_byte p) ≡ used p - 1 = ground arith in
    rw e (window_pos p.buf p.nread (used p) (ground arith))
