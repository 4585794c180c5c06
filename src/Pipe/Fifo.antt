-- ===== src/Pipe/Fifo.antt =====
-- What `pipewrite` and `piperead` do to the bytes that the pipe holds (pipe.c).
use mathlib.Core.List.{append-nil, append_assoc}
use ducko_unix.Prelude.{
  ℕ, zero, suc, ◌≡◌, refl, sym, ap, ◌⊎◌, inl, inr, Bool, true, false, List, [], ◌∷◌, ◌++◌, arith,
  length, min, ◌≢◌, Bool-cases, if◌then◌else◌,
}
use ducko_unix.Pipe.{
  Pipe, returned, failed, asleep, nread_chan, nwrite_chan, is_full, is_empty, put_byte, drop_byte,
  pipewrite, copy_out, piperead,
}
use ducko_unix.Pipe.Window.{
  IsValid, contents, used, length-window, put_byte-IsValid, contents-put_byte, drop_byte-IsValid,
  contents-drop_byte, contents-empty,
}

-- What one run of the write loop has done: it copied `taken`, a first part of its bytes.
pub record Wrote (killed : Bool) (p : Pipe) (bs : List ℕ) : Type 0 where
  pub taken : List ℕ
  pub split : bs ≡ taken ++ (pipewrite killed p bs).rest
  pub stored : contents (pipewrite killed p bs).pipe ≡ contents p ++ taken
  pub valid : IsValid (pipewrite killed p bs).pipe
  pub open_ends :
      ((pipewrite killed p bs).pipe.readopen ≡ p.readopen)
      × ((pipewrite killed p bs).pipe.writeopen ≡ p.writeopen)
      × ((pipewrite killed p bs).pipe.nread ≡ p.nread)

-- How the run ends: it copied all, or it stopped at a full pipe, and sleeps only if a reader may
-- come.
abbrev pub Ending : Bool → Pipe → List ℕ → Type 0
Ending killed p bs =
    let r = pipewrite killed p bs in
    ((r.status ≡ returned) × (r.rest ≡ []) × (r.woken ≡ nread_chan ∷ []))
    ⊎ (((r.status ≡ asleep)
          × (r.rest ≢ [])
          × (is_full r.pipe ≡ true)
          × (p.readopen ≡ true)
          × (killed ≡ false)
          × (r.woken ≡ nread_chan ∷ []))
        ⊎ ((r.status ≡ failed)
            × (r.rest ≢ [])
            × (is_full r.pipe ≡ true)
            × ((p.readopen ≡ false) ⊎ (killed ≡ true))
            × (r.woken ≡ [])))

pub pipewrite-Wrote : (killed : Bool) (p : Pipe) (bs : List ℕ) → IsValid p → Wrote killed p bs
unfolding pipewrite
pipewrite-Wrote killed p [] v = record {
  taken = [];
  split = refl;
  stored = sym (append-nil (contents p));
  valid = v;
  open_ends = (refl, refl, refl);
}
pipewrite-Wrote killed p (b ∷ bs) v = elim (Bool-cases (is_full p)) [
  | inl full ↦ record {
    taken = [];
    split = ground arith;
    stored = ground (arith, append-nil (contents p));
    valid = ground arith;
    open_ends = ground arith;
  }
  | inr room ↦
      let w = pipewrite-Wrote killed (put_byte p b) bs (put_byte-IsValid b v room) in
      record {
        taken = b ∷ w.taken;
        split = ground (arith, w.split);
        stored = ground (
          arith,
          w.stored,
          contents-put_byte b v room,
          append_assoc (contents p) (b ∷ []) w.taken,
        );
        valid = ground (arith, w.valid);
        open_ends = ground (arith, w.open_ends);
      }
]

pub pipewrite-Ending : (killed : Bool) (p : Pipe) (bs : List ℕ) → Ending killed p bs
unfolding pipewrite
pipewrite-Ending killed p [] = inl (refl, refl, refl)
pipewrite-Ending killed p (b ∷ bs) = ground (arith, pipewrite-Ending killed (put_byte p b) bs)

-- What `copy_out` takes is the front of the pipe, as much as is asked for or is there.
pub record Took (p : Pipe) (k : ℕ) : Type 0 where
  pub front : contents p ≡ (copy_out p k).1 ++ contents (copy_out p k).0
  pub count : length (copy_out p k).1 ≡ min k (used p)
  pub valid : IsValid (copy_out p k).0
  pub open_ends :
      ((copy_out p k).0.readopen ≡ p.readopen) × ((copy_out p k).0.writeopen ≡ p.writeopen)

pub copy_out-Took : (p : Pipe) (k : ℕ) → IsValid p → Took p k
unfolding copy_out
copy_out-Took p zero v = record {
  front = refl;
  count = omega arith;
  valid = v;
  open_ends = (refl, refl);
}
copy_out-Took p (suc k) v = elim (Bool-cases (is_empty p)) [
  | inl none_left ↦ record {
    front = ground (arith, contents-empty v none_left);
    count = ground arith;
    valid = ground arith;
    open_ends = ground arith;
  }
  | inr some_left ↦
      let t = copy_out-Took (drop_byte p) k (drop_byte-IsValid v some_left) in
      record {
        front = ground (arith, t.front, contents-drop_byte v some_left);
        count = ground (
          arith,
          t.count,
          length-window p.buf p.nread (used p),
          length-window (drop_byte p).buf (drop_byte p).nread (used (drop_byte p)),
          ap length (contents-drop_byte v some_left),
        );
        valid = ground (arith, t.valid);
        open_ends = ground (arith, t.open_ends);
      }
]

-- `pipewrite` appends a first part of the bytes to the pipe and nothing else, keeps the invariant,
-- and never moves the read counter. It copies all bytes and wakes the readers; or it stops at a
-- full pipe, to sleep where a reader may come and the process is not killed (readers woken), or
-- else to fail.
pub pipewrite_lem :
    (killed : Bool) (p : Pipe) (bs : List ℕ) → IsValid p → Wrote killed p bs × Ending killed p bs
pipewrite_lem killed p bs v = (pipewrite-Wrote killed p bs v, pipewrite-Ending killed p bs)

-- On an empty pipe that writers hold open, `piperead` takes nothing: it fails if killed, and sleeps
-- otherwise. In every other case it returns the oldest bytes, as many as are asked for or are
-- there, leaves the rest in order, and wakes the writers.
pub piperead_lem :
    (killed : Bool) (p : Pipe) (n : ℕ)
    → IsValid p
    → let r = piperead killed p n in
      IsValid r.pipe
      × (contents p ≡ r.bytes ++ contents r.pipe)
      × (((contents p ≡ [])
            × (p.writeopen ≡ true)
            × (r.pipe ≡ p)
            × (r.woken ≡ [])
            × (r.status ≡ (if killed then failed else asleep)))
          ⊎ ((r.status ≡ returned)
              × (length r.bytes ≡ min n (length (contents p)))
              × (r.woken ≡ nwrite_chan ∷ [])
              × ((p.writeopen ≡ false) ⊎ (contents p ≢ []))))
unfolding piperead
piperead_lem killed p n v = ground (
  arith,
  copy_out-Took p n v,
  contents-empty v,
  length-window p.buf p.nread (used p),
  ap length {x = contents p} {y = []},
)
