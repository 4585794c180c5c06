-- ===== src/Pipe/System.antt =====
-- A pipe under any interleaving of its writers and readers: a step is one critical section of
-- pipe.c, and `wakeup` and `sleep` are seen in who waits.
use mathlib.Core.List.{append_assoc, append-nil}
use ducko_unix.Prelude.{
  ℕ, ◌+◌, ◌<◌, ◌≡◌, refl, Bool, true, false, ◌&&◌, ◌||◌, List, [], ◌∷◌, ◌++◌, arith, if◌then◌else◌,
  sym, ap, ◌≤◌, inl, inr, length, length-append, Bool-cases, ◌∙◌,
}
use ducko_unix.Pipe.{
  Pipe, Chan, nread_chan, nwrite_chan, Status, failed, asleep, fresh, is_full, put_byte, pipewrite,
  piperead, pipeclose, pipe_size,
}
use ducko_unix.Pipe.Window.{IsValid, contents, length-window, used, used-full, put_byte-IsValid}
use ducko_unix.Pipe.Fifo.{pipewrite-Wrote, pipewrite-Ending, piperead_lem}

-- `sent` and `received` are the bytes that writers gave and readers got, in order.
-- `readers_wait`: some process sleeps on `&p->nread`; `writers_wait`: some on `&p->nwrite`.
-- `cut_short`: a write has failed after it had copied bytes.
pub record Sys : Type 0 where
  pub pipe : Pipe
  pub sent : List ℕ
  pub received : List ℕ
  pub readers_wait : Bool
  pub writers_wait : Bool
  pub cut_short : Bool

abbrev pub wakes_readers : List Chan → Bool
wakes_readers [] = false
wakes_readers (nread_chan ∷ cs) = true
wakes_readers (nwrite_chan ∷ cs) = wakes_readers cs

abbrev pub wakes_writers : List Chan → Bool
wakes_writers [] = false
wakes_writers (nwrite_chan ∷ cs) = true
wakes_writers (nread_chan ∷ cs) = wakes_writers cs

abbrev pub is_asleep : Status → Bool
is_asleep asleep = true
is_asleep _ = false

abbrev pub is_failed : Status → Bool
is_failed failed = true
is_failed _ = false

abbrev pub is_nil : List ℕ → Bool
is_nil [] = true
is_nil (b ∷ bs) = false

-- `wakeup` first, then the process itself may go to sleep.
abbrev pub still : Bool → Bool → Bool → Bool
still waiting woken sleeps = sleeps || (if woken then false else waiting)

abbrev pub after_write : Sys → Bool → List ℕ → List ℕ → Sys
after_write s killed bs taken =
    let r = pipewrite killed s.pipe bs in
    record {
      pipe = r.pipe;
      sent = s.sent ++ taken;
      received = s.received;
      readers_wait = still s.readers_wait (wakes_readers r.woken) false;
      writers_wait = still s.writers_wait (wakes_writers r.woken) (is_asleep r.status);
      cut_short = s.cut_short || (is_failed r.status && (if is_nil taken then false else true));
    }

abbrev pub after_read : Sys → Bool → ℕ → Sys
after_read s killed n =
    let r = piperead killed s.pipe n in
    record s {
      pipe = r.pipe;
      received = s.received ++ r.bytes;
      readers_wait = still s.readers_wait (wakes_readers r.woken) (is_asleep r.status);
      writers_wait = still s.writers_wait (wakes_writers r.woken) false;
    }

abbrev pub after_close : Sys → Bool → Sys
after_close s writable =
    let r = pipeclose s.pipe writable in
    record s {
      pipe = r.pipe;
      readers_wait = still s.readers_wait (wakes_readers r.woken) false;
      writers_wait = still s.writers_wait (wakes_writers r.woken) false;
    }

-- A writer holds the write end open while it is in `pipewrite`, and a reader the read end.
pub data Step (s : Sys) : Sys → Type 0 where
  write :
      (killed : Bool) (bs taken : List ℕ)
      → s.pipe.writeopen ≡ true
      → bs ≡ taken ++ (pipewrite killed s.pipe bs).rest
      → Step s (after_write s killed bs taken)
  read : (killed : Bool) (n : ℕ) → s.pipe.readopen ≡ true → Step s (after_read s killed n)
  close_write : s.pipe.writeopen ≡ true → Step s (after_close s true)
  close_read : s.pipe.readopen ≡ true → Step s (after_close s false)

abbrev pub start : (ℕ → ℕ) → Sys
start junk = record {
  pipe = fresh junk;
  sent = [];
  received = [];
  readers_wait = false;
  writers_wait = false;
  cut_short = false;
}

pub data Reach (junk : ℕ → ℕ) : Sys → Type 0 where
  here : Reach junk (start junk)
  next : {s t : Sys} → Reach junk s → Step s t → Reach junk t

pub record Inv (s : Sys) : Type 0 where
  pub valid : IsValid s.pipe
  pub fifo : s.sent ≡ s.received ++ contents s.pipe
  pub reader_sleeps :
      s.readers_wait ≡ true
      → s.cut_short ≡ false
      → (contents s.pipe ≡ []) × (s.pipe.writeopen ≡ true)
  pub writer_sleeps : s.writers_wait ≡ true → (is_full s.pipe ≡ true) × (s.pipe.readopen ≡ true)

start-Inv : (junk : ℕ → ℕ) → Inv (start junk)
unfolding fresh
start-Inv junk = record {
  valid = omega arith;
  fifo = refl;
  reader_sleeps = λ h _. cc;
  writer_sleeps = λ h. cc;
}

-- Two ways to cut one list before the same rest.
append-cancel_length : (xs ys zs : List ℕ) → xs ++ zs ≡ ys ++ zs → length xs ≡ length ys → xs ≡ ys
append-cancel_length [] [] zs e h = refl
append-cancel_length [] (y ∷ ys) zs e h = absurd (omega arith)
append-cancel_length (x ∷ xs) [] zs e h = absurd (omega arith)
append-cancel_length (x ∷ xs) (y ∷ ys) zs e h =
    ground (arith, append-cancel_length xs ys zs (ground arith) (omega arith))

append-cancel : (xs ys zs : List ℕ) → xs ++ zs ≡ ys ++ zs → xs ≡ ys
append-cancel xs ys zs e =
    append-cancel_length xs ys zs e
      (omega (arith, ap length e, length-append xs zs, length-append ys zs))

pipewrite-full :
    (killed : Bool) (p : Pipe) (bs : List ℕ) → is_full p ≡ true → (pipewrite killed p bs).pipe ≡ p
unfolding pipewrite
pipewrite-full killed p [] h = refl
pipewrite-full killed p (b ∷ bs) h = ground arith

write-Inv :
    {s : Sys} (killed : Bool) (bs taken : List ℕ)
    → s.pipe.writeopen ≡ true
    → bs ≡ taken ++ (pipewrite killed s.pipe bs).rest
    → Inv s
    → Inv (after_write s killed bs taken)
write-Inv {s} killed bs taken o e v =
    let w = pipewrite-Wrote killed s.pipe bs v.valid in
    let same = append-cancel taken w.taken (pipewrite killed s.pipe bs).rest (sym e ∙ w.split) in
    record {
      valid = w.valid;
      fifo =
          ground (arith, w.stored, same, v.fifo, append_assoc s.received (contents s.pipe) taken);
      reader_sleeps = λ h c. ground (
        arith,
        same,
        w.stored,
        w.open_ends,
        pipewrite-Ending killed s.pipe bs,
        v.reader_sleeps,
        append-nil (contents s.pipe),
      );
      writer_sleeps = λ h. ground (
        arith,
        w.open_ends,
        pipewrite-Ending killed s.pipe bs,
        pipewrite-full killed s.pipe bs,
        v.writer_sleeps,
      );
    }

read-Inv :
    {s : Sys} (killed : Bool) (n : ℕ) → s.pipe.readopen ≡ true → Inv s → Inv (after_read s killed n)
read-Inv {s} killed n o v = record {
  valid = ground (arith, piperead_lem killed s.pipe n v.valid);
  fifo = ground (
    arith,
    piperead_lem killed s.pipe n v.valid,
    append_assoc s.received (piperead killed s.pipe n).bytes
        (contents (piperead killed s.pipe n).pipe),
    v.fifo,
  );
  reader_sleeps = λ h c. ground (arith, piperead_lem killed s.pipe n v.valid, v.reader_sleeps);
  writer_sleeps = λ h. ground (arith, piperead_lem killed s.pipe n v.valid, v.writer_sleeps);
}

close-Inv : {s : Sys} (writable : Bool) → Inv s → Inv (after_close s writable)
unfolding pipeclose
close-Inv {s} writable v = record {
  valid = ground (arith, v.valid);
  fifo = ground (arith, v.fifo);
  reader_sleeps = λ h c. ground (arith, v.reader_sleeps);
  writer_sleeps = λ h. ground (arith, v.writer_sleeps);
}

Step-Inv : {s t : Sys} → Step s t → Inv s → Inv t
Step-Inv (write killed bs taken o e) v = write-Inv killed bs taken o e v
Step-Inv (read killed n o) v = read-Inv killed n o v
Step-Inv (close_write o) v = close-Inv true v
Step-Inv (close_read o) v = close-Inv false v

-- In every state that a fresh pipe reaches under any interleaving of writes, reads and closes: the
-- bytes received, and then those that the pipe holds, are the bytes sent, in order; the pipe holds
-- at most 512 bytes; a process sleeps on the write side only while the pipe is full and the read
-- end open; and, unless a write has failed after copying bytes, a process sleeps on the read side
-- only while the pipe is empty and the write end open.
pub Reach-Inv : (junk : ℕ → ℕ) {s : Sys} → Reach junk s → Inv s
Reach-Inv junk here = start-Inv junk
Reach-Inv junk (next r st) = Step-Inv st (Reach-Inv junk r)

-- The bound on the bytes held, read off the invariant.
pub Reach-length-le : (junk : ℕ → ℕ) {s : Sys} → Reach junk s → length (contents s.pipe) ≤ pipe_size
Reach-length-le junk {s} r =
    let v = (Reach-Inv junk r).valid in
    omega (arith, length-window s.pipe.buf s.pipe.nread (used s.pipe))

used-put_byte :
    {p : Pipe} (b : ℕ) → IsValid p → is_full p ≡ false → used (put_byte p b) ≡ used p + 1
unfolding put_byte
used-put_byte b v h = ground arith

-- A killed process that writes more than fits fills the pipe and fails without any `wakeup`, also
-- when it was the first to write: readers that sleep on the pipe stay asleep at a full pipe.
pub killed_write-silent :
    (p : Pipe) (bs : List ℕ)
    → IsValid p
    → pipe_size < length bs + used p
    → let r = pipewrite true p bs in
      (r.status ≡ failed) × (r.woken ≡ []) × (used r.pipe ≡ pipe_size)
unfolding pipewrite
killed_write-silent p [] v h = absurd (omega arith)
killed_write-silent p (b ∷ bs) v h = elim (Bool-cases (is_full p)) [
  | inl full ↦ ground (arith, used-full v full)
  | inr room ↦ ground (
    arith,
    killed_write-silent (put_byte p b) bs (put_byte-IsValid b v room)
        (omega (arith, used-put_byte b v room)),
  )
]
