-- ===== src/Fs/Content.antt =====
-- The content of inodes (fs.c): `bmap`, `readi`, `writei`, `itrunc`. The caller holds the inode's
-- lock, so the inode and its blocks are its own. `devsw` is the table of the devices' functions.
pub mod Words
pub mod Slots
pub mod Filled
pub mod Bmap
pub mod Read
pub mod Turn
pub mod Write
pub mod RoundTrip
pub mod Freed
pub mod Trunc
pub mod Sample
mod Tests
use ducko_unix.Prelude.{
  ℕ, zero, suc, ◌+◌, ◌-◌, ◌*◌, ◌/◌, ◌%◌, min, ltb, leb, ◌==◌, Bool, true, false, ◌&&◌, ◌||◌, not,
  Option, none, some, List, [], ◌∷◌, ◌++◌, length, get_or, drop, if◌then◌else◌, update, Outcome,
  done, panic, ◌>>=◌,
}
use ducko_unix.Fs.Icache.{Dinode}
use ducko_unix.Fs.FreeMap.{Disk, Super, balloc, bfree}

abbrev pub bsize : ℕ
bsize = 512

abbrev pub ndirect : ℕ
ndirect = 12

abbrev pub nindirect : ℕ
nindirect = 128

abbrev pub maxfile : ℕ
maxfile = 140

abbrev pub t_dev : ℕ
t_dev = 3

-- The word `i` of a block, `((uint*)bp->data)[i]`, low byte first.
unfoldable pub get_word : (ℕ → ℕ) → ℕ → ℕ
get_word bytes i =
    bytes (i * 4)
    + 256 * bytes (i * 4 + 1)
    + 65536 * bytes (i * 4 + 2)
    + 16777216 * bytes (i * 4 + 3)

unfoldable pub put_word : (ℕ → ℕ) → ℕ → ℕ → ℕ → ℕ
put_word bytes i v =
    update
      (update (update (update bytes (i * 4) (v % 256)) (i * 4 + 1) (v / 256 % 256)) (i * 4 + 2)
        (v / 65536 % 256))
      (i * 4 + 3) (v / 16777216 % 256)

abbrev pub Addrs : Type 0
Addrs = ℕ → ℕ

-- What `bmap` returns, with `ip->addrs` and the disk after it.
pub record Mapped : Type 0 where
  pub block : ℕ
  pub addrs : Addrs
  pub disk : Disk

-- `if((addr = ip->addrs[i]) == 0) ip->addrs[i] = addr = balloc(ip->dev);`
unfoldable pub direct : Super → Addrs → ℕ → Disk → Outcome Mapped
direct sb addrs i d =
    if addrs i == 0
    then (balloc sb d >>= λ r.
        done (record { block = r.0; addrs = update addrs i r.0; disk = r.1 }))
    else done (record { block = addrs i; addrs = addrs; disk = d })

-- The same for the word `k` of the indirect block, which is `q.block`.
unfoldable pub indirect : Super → ℕ → Mapped → Outcome Mapped
unfolding get_word put_word
indirect sb k q =
    if get_word (q.disk q.block) k == 0
    then (balloc sb q.disk >>= λ r. done (record {
      block = r.0;
      addrs = q.addrs;
      disk = update r.1 q.block (put_word (r.1 q.block) k r.0);
    }))
    else done (record q { block = get_word (q.disk q.block) k })

unfoldable pub bmap : Super → Addrs → ℕ → Disk → Outcome Mapped
unfolding direct indirect
bmap sb addrs bn d =
    if ltb bn ndirect
    then direct sb addrs bn d
    else if ltb (bn - ndirect) nindirect
    then (direct sb addrs ndirect d >>= λ q. indirect sb (bn - ndirect) q)
    else panic

-- `m` bytes of a block from offset `o` on, `memmove(dst, bp->data + o, m)`.
abbrev pub slice : (ℕ → ℕ) → ℕ → ℕ → List ℕ
slice bytes o zero = []
slice bytes o (suc m) = bytes o ∷ slice bytes (o + 1) m

-- `m` bytes of the source put at offset `o`, `memmove(bp->data + o, src, m)`.
abbrev pub splice : (ℕ → ℕ) → ℕ → List ℕ → ℕ → ℕ → ℕ
splice bytes o src m i = if leb o i && ltb i (o + m) then get_or src (i - o) 0 else bytes i

pub record Body : Type 0 where
  pub ip : Dinode
  pub disk : Disk
  -- the inode on disk, as the last `iupdate` left it
  pub saved : Dinode

abbrev pub chunk : ℕ → ℕ → ℕ
chunk off n = min n (bsize - off % bsize)

-- The loop of `readi`; each turn reads a byte at least, so `n` turns are enough.
unfoldable pub read_loop : Super → ℕ → ℕ → ℕ → Body → Outcome (List ℕ × Body)
unfolding bmap
read_loop sb zero off n s = done ([], s)
read_loop sb (suc fuel) off n s =
    if n == 0
    then done ([], s)
    else (bmap sb s.ip.addrs (off / bsize) s.disk >>= λ q.
        let m = chunk off n in
        read_loop sb fuel (off + m) (n - m)
          (record s { ip = record s.ip { addrs = q.addrs }; disk = q.disk })
        >>= λ r. done (slice (q.disk q.block) (off % bsize) m ++ r.0, r.1))

-- The bytes that a call reads, or `none` for -1; a device reads `n` bytes by itself.
unfoldable pub readi :
    (ℕ → Option (ℕ → Option (List ℕ))) → Super → ℕ → ℕ → Body → Outcome (Option (List ℕ) × Body)
unfolding read_loop
readi devsw sb off n s =
    if s.ip.kind == t_dev
    then (if leb 10 s.ip.major
        then done (none, s)
        else elim (devsw s.ip.major) [ none ↦ done (none, s) | some read ↦ done (read n, s) ])
    else if ltb s.ip.size off || ltb ((off + n) % 4294967296) off
    then done (none, s)
    else (let k = if ltb s.ip.size (off + n) then s.ip.size - off else n in
        read_loop sb k off k s >>= λ r. done (some r.0, r.1))

-- The loop of `writei`; `drop` of the source is counted by `src`, the place in it.
unfoldable pub write_loop : Super → ℕ → ℕ → List ℕ → Body → Outcome Body
unfolding bmap
write_loop sb zero off src s = done s
write_loop sb (suc fuel) off src s =
    if length src == 0
    then done s
    else (bmap sb s.ip.addrs (off / bsize) s.disk >>= λ q.
        let m = chunk off (length src) in
        write_loop sb fuel (off + m) (drop m src) (record s {
          ip = record s.ip { addrs = q.addrs };
          disk = update q.disk q.block (splice (q.disk q.block) (off % bsize) src m);
        }))

-- `if(n > 0 && off > ip->size){ ip->size = off; iupdate(ip); }`
abbrev pub grown : ℕ → ℕ → Body → Body
grown n off s =
    if ltb 0 n && ltb s.ip.size off
    then (let ip = record s.ip { size = off } in record s { ip = ip; saved = ip })
    else s

-- The number of bytes written, or `none` for -1.
unfoldable pub writei :
    (ℕ → Option (List ℕ → Option ℕ)) → Super → ℕ → List ℕ → Body → Outcome (Option ℕ × Body)
unfolding write_loop
writei devsw sb off src s =
    let n = length src in
    if s.ip.kind == t_dev
    then (if leb 10 s.ip.major
        then done (none, s)
        else elim (devsw s.ip.major) [ none ↦ done (none, s) | some write ↦ done (write src, s) ])
    else if ltb s.ip.size off || ltb ((off + n) % 4294967296) off
    then done (none, s)
    else if ltb (maxfile * bsize) (off + n)
    then done (none, s)
    else (write_loop sb n off src s >>= λ t. done (some n, grown n (off + n) t))

-- `itrunc`: one entry of the loops, the two loops, and the rest.
unfoldable pub free_one : Super → ℕ → Disk → Outcome Disk
free_one sb b d = if b == 0 then done d else bfree sb b d

unfoldable pub free_all : Super → (ℕ → ℕ) → ℕ → ℕ → Disk → Outcome Disk
unfolding free_one
free_all sb blocks i zero d = done d
free_all sb blocks i (suc k) d = free_one sb (blocks i) d >>= λ e. free_all sb blocks (i + 1) k e

-- `if(ip->addrs[NDIRECT])`: the blocks that the indirect block lists, and the block itself.
unfoldable pub free_indirect : Super → ℕ → Disk → Outcome Disk
free_indirect sb b d =
    if b == 0 then done d else (free_all sb (get_word (d b)) 0 nindirect d >>= λ e. bfree sb b e)

abbrev pub emptied : Body → Disk → Body
emptied s d =
    let ip = record s.ip { size = 0; addrs = λ i. if leb i ndirect then 0 else s.ip.addrs i } in
    record { ip = ip; disk = d; saved = ip }

unfoldable pub itrunc : Super → Body → Outcome Body
itrunc sb s = free_all sb s.ip.addrs 0 ndirect s.disk >>= λ d.
    free_indirect sb (s.ip.addrs ndirect) d >>= λ e. done (emptied s e)
