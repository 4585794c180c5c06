-- ===== src/Bio.antt =====
-- bio.c, the buffer cache, over the disk of memide.c. `bufs` is the list from `bcache.head.next`
-- on, most recently used first; a pointer to a buffer is its place in `bcache.buf`, `id`. Each
-- function below is what one process does with the cache's lock or the buffer's lock held; that it
-- waits for the buffer's sleep lock is a result.
pub mod Bget
mod Tests
use ducko_unix.Prelude.{
  ℕ, zero, suc, ◌+◌, ◌-◌, ltb, leb, ◌==◌, Bool, true, false, ◌&&◌, not, List, [], ◌∷◌, ◌++◌, map,
  Option, none, some, if◌then◌else◌, update, Outcome, done, panic,
}

-- The 128 words of a block.
abbrev pub Block : Type 0
Block = ℕ → ℕ

-- `struct buf`; `owner` is the process that holds the sleep lock, `valid` and `dirty` the flags.
pub record Buf : Type 0 where
  pub id : ℕ
  pub dev : ℕ
  pub blockno : ℕ
  pub valid : Bool
  pub dirty : Bool
  pub refcnt : ℕ
  pub owner : Option ℕ
  pub words : Block

pub record Cache : Type 0 where
  pub bufs : List Buf
  pub disk : ℕ → Block
  -- `disksize` of memide.c
  pub blocks : ℕ

abbrev pub blank : ℕ → Buf
blank i = record {
  id = i;
  dev = 0;
  blockno = 0;
  valid = false;
  dirty = false;
  refcnt = 0;
  owner = none;
  words = λ j. 0;
}

-- The loop of `binit` puts each buffer in front of those before it.
abbrev pub binit : ℕ → List Buf
binit zero = []
binit (suc n) = blank n ∷ binit n

abbrev pub is_buf : ℕ → ℕ → Buf → Bool
is_buf dev blockno b = b.dev == dev && b.blockno == blockno

-- The forward search of `bget`: the first buffer of the block, with one more reference.
pub share : ℕ → ℕ → List Buf → Option (ℕ × List Buf)
share dev blockno [] = none
share dev blockno (b ∷ bs) =
    let rest : Option (ℕ × List Buf) = elim (share dev blockno bs) [
      | none ↦ none
      | some (i, bs') ↦ some (i, b ∷ bs')
    ] in
    if is_buf dev blockno b then some (b.id, record b { refcnt = b.refcnt + 1 } ∷ bs) else rest

abbrev pub is_unused : Buf → Bool
is_unused b = b.refcnt == 0 && not b.dirty

-- The backward search: the last buffer that is unused and clean, made the block's.
pub recycle : ℕ → ℕ → List Buf → Option (ℕ × List Buf)
recycle dev blockno [] = none
recycle dev blockno (b ∷ bs) =
    let mine = record b {
      dev = dev;
      blockno = blockno;
      valid = false;
      dirty = false;
      refcnt = 1;
    } in
    elim (recycle dev blockno bs) [
      | none ↦ if is_unused b then some (b.id, mine ∷ bs) else none
      | some (i, bs') ↦ some (i, b ∷ bs')
    ]

-- `bget` up to `acquiresleep`.
pub bget : ℕ → ℕ → List Buf → Outcome (ℕ × List Buf)
unfolding share recycle
bget dev blockno bs = elim (share dev blockno bs) [
  | some found ↦ done found
  | none ↦ elim (recycle dev blockno bs) [ some found ↦ done found | none ↦ panic ]
]

-- A change of the buffer that `i` points to.
abbrev pub at_buf : ℕ → (Buf → Buf) → List Buf → List Buf
at_buf i f [] = []
at_buf i f (b ∷ bs) = (if b.id == i then f b else b) ∷ at_buf i f bs

abbrev pub find_buf : ℕ → List Buf → Option Buf
find_buf i [] = none
find_buf i (b ∷ bs) = if b.id == i then some b else find_buf i bs

abbrev pub holds : ℕ → Buf → Bool
holds pid b = elim b.owner [ none ↦ false | some p ↦ p == pid ]

-- memide.c `iderw`, on a buffer that the process has locked.
pub iderw : ℕ → Buf → Cache → Outcome Cache
iderw pid b c =
    if not (holds pid b)
    then panic
    else (if b.valid && not b.dirty
        then panic
        else (if not (b.dev == 1)
            then panic
            else (if leb c.blocks b.blockno
                then panic
                else (if b.dirty
                    then done (record c {
                      disk = update c.disk b.blockno b.words;
                      bufs = at_buf b.id (λ x. record x { dirty = false; valid = true }) c.bufs;
                    })
                    else done (record c {
                      bufs =
                          at_buf b.id (λ x. record x { words = c.disk b.blockno; valid = true })
                            c.bufs;
                    })))))

-- What `bread` does once it has the buffer's lock.
pub fill : ℕ → ℕ → Cache → Outcome (ℕ × Cache)
unfolding iderw
fill pid i c = elim (find_buf i c.bufs) [
  | none ↦ panic
  | some b ↦
      if b.valid
      then done (i, c)
      else elim (iderw pid b c) [ panic ↦ panic | done c' ↦ done (i, c') ]
]

-- `bread`: `waiting` where another process holds the buffer's lock; its reference counts already,
-- and it goes on with `fill` when it gets the lock.
pub data Got : Type 0 where
  locked : ℕ → Cache → Got
  waiting : ℕ → Cache → Got

pub lock_buf : ℕ → ℕ → Cache → Got
lock_buf pid i c = elim (find_buf i c.bufs) [
  | none ↦ waiting i c
  | some b ↦ elim b.owner [
    | none ↦ locked i (record c { bufs = at_buf i (λ x. record x { owner = some pid }) c.bufs })
    | some p ↦ waiting i c
  ]
]

pub bread : ℕ → ℕ → ℕ → Cache → Outcome Got
unfolding bget lock_buf fill
bread pid dev blockno c = elim (bget dev blockno c.bufs) [
  | panic ↦ panic
  | done (i, bs) ↦ elim (lock_buf pid i (record c { bufs = bs })) [
    | waiting j c' ↦ done (waiting j c')
    | locked j c' ↦ elim (fill pid j c') [ panic ↦ panic | done (k, c'') ↦ done (locked k c'') ]
  ]
]

-- `bwrite` of the buffer that `i` points to.
pub bwrite : ℕ → ℕ → Cache → Outcome Cache
unfolding iderw
bwrite pid i c = elim (find_buf i c.bufs) [
  | none ↦ panic
  | some b ↦
      if holds pid b
      then iderw pid (record b { dirty = true })
          (record c { bufs = at_buf i (λ x. record x { dirty = true }) c.bufs })
      else panic
]

abbrev pub without : ℕ → List Buf → List Buf
without i [] = []
without i (b ∷ bs) = if b.id == i then bs else b ∷ without i bs

-- `brelse`: unlock, drop the reference, and move a buffer that nobody waits for to the front.
pub brelse : ℕ → ℕ → Cache → Outcome Cache
brelse pid i c = elim (find_buf i c.bufs) [
  | none ↦ panic
  | some b ↦
      let b' = record b { owner = none; refcnt = b.refcnt - 1 } in
      if holds pid b
      then done (record c {
        bufs = if b'.refcnt == 0 then b' ∷ without i c.bufs else at_buf i (λ x. b') c.bufs;
      })
      else panic
]
