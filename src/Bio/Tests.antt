-- ===== src/Bio/Tests.antt =====
-- Runs of bio.c on a small cache, and instances of its theorems.
use ducko_unix.Prelude.{◌≡◌, refl, true, List, [], ◌∷◌, arith, done, panic}
use ducko_unix.Bio.{Buf, blank, share, recycle, bget}
use ducko_unix.Bio.Bget.{copies, IsUnique, HasBlock, AllKept, bget_lem}

-- Buffer 2 has block 5 and is in use, 0 is dirty with block 6, and 1 was never used.
abbrev second : Buf
second = record (blank 2) { dev = 1; blockno = 5; valid = true; refcnt = 1 }

abbrev modified : Buf
modified = record (blank 0) { dev = 1; blockno = 6; valid = true; dirty = true }

abbrev cache : List Buf
cache = second ∷ blank 1 ∷ modified ∷ []

-- Block 7 gets the buffer 1, though 0 is less recently used.
abbrev recycled : List Buf
recycled = second ∷ record (blank 1) { dev = 1; blockno = 7; refcnt = 1 } ∷ modified ∷ []

bget_recycles : bget 1 7 cache ≡ done (1, recycled)
unfolding bget share recycle
bget_recycles = refl

bget_shares : bget 1 6 cache ≡ done (0, second ∷ blank 1 ∷ record modified { refcnt = 1 } ∷ [])
unfolding bget share recycle
bget_shares = refl

cache-IsUnique : IsUnique cache
cache-IsUnique d k h = ground arith

bget_lem_example :
    IsUnique recycled × (copies 1 7 recycled ≡ 1) × HasBlock 1 7 1 recycled × AllKept cache recycled
bget_lem_example = bget_lem 1 7 cache (omega arith) cache-IsUnique bget_recycles

abbrev busy : List Buf
busy = second ∷ modified ∷ []

bget_full : bget 1 7 busy ≡ panic
unfolding bget share recycle
bget_full = refl
