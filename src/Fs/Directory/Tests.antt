-- ===== src/Fs/Directory/Tests.antt =====
-- A directory of two entries, in use under the names `.` and `a` (fs.c).
use ducko_unix.Prelude.{
  ℕ, ◌==◌, ◌≡◌, refl, false, if◌then◌else◌, done, Option, none, some, List, [], ◌∷◌, arith, ap,
}
use ducko_unix.Fs.Icache.{Dinode, Inode}
use ducko_unix.Fs.FreeMap.{Disk, Super}
use ducko_unix.Fs.Content.{Body, readi, read_loop, bmap, direct}
use ducko_unix.Fs.Content.Slots.{slot}
use ducko_unix.Fs.Content.Read.{IsWhole}
use ducko_unix.Fs.Directory.{namecmp, look_loop, dirlookup}
use ducko_unix.Fs.Directory.Lookup.{Looked, dirlookup_lem}
use ducko_unix.Str.{strncmp}

abbrev sb : Super
sb = record { size = 300; bmapstart = 3 }

-- Block 4 has the entries.
abbrev disk : Disk
disk b i =
    if b == 4
    then (if i == 0
        then 1
        else if i == 2
        then 46
        else if i == 16
        then 7
        else if i == 18
        then 97
        else 0)
    else 0

abbrev inode : Dinode
inode = record {
  kind = 1;
  major = 0;
  minor = 0;
  nlink = 1;
  size = 32;
  addrs = λ i. if i == 0 then 4 else 0;
}

abbrev dir : Body
dir = record { ip = inode; disk = disk; saved = inode }

abbrev no_devices : ℕ → Option (ℕ → Option (List ℕ))
no_devices n = none

abbrev name_a : ℕ → ℕ
name_a i = if i == 0 then 97 else 0

abbrev free_inode : Inode
free_inode = record { dev = 0; inum = 0; ref = 0; holder = none; valid = false; copy = inode }

finds_a : look_loop no_devices sb name_a 32 0 dir ≡ done (some (16, 7), dir)
unfolding look_loop readi read_loop bmap direct namecmp strncmp
finds_a = refl

dir-IsWhole : IsWhole disk inode.addrs 32
dir-IsWhole i lt z =
    let first : i ≡ 0 = omega (arith, lt) in
    absurd (omega (arith, ap (λ i. slot disk inode.addrs i) first, z))

dirlookup_lem_example :
    Looked name_a dir 2 1 (free_inode ∷ []) (dirlookup no_devices sb 1 name_a dir (free_inode ∷ []))
dirlookup_lem_example =
    dirlookup_lem no_devices sb name_a dir 2 1 (free_inode ∷ []) refl dir-IsWhole (omega arith)
      (omega arith)
