-- ===== src/Fs/Directory.antt =====
-- Directories (fs.c): `dirlookup` on the content of an inode. The caller holds the directory's
-- lock. A name is what its pointer reads at each offset.
pub mod Lookup
mod Tests
use ducko_unix.Prelude.{
  ℕ, zero, suc, ◌+◌, ◌*◌, leb, ◌==◌, Bool, true, false, Option, none, some, List, length, get_or,
  if◌then◌else◌, Outcome, done, panic, ◌>>=◌,
}
use ducko_unix.Prelude.Int.{ℤ, pos, negsuc}
use ducko_unix.Str.{strncmp}
use ducko_unix.Fs.FreeMap.{Super}
use ducko_unix.Fs.Icache.{Inode, iget}
use ducko_unix.Fs.Content.{Body, readi}

-- `sizeof(struct dirent)`, and `DIRSIZ`.
abbrev pub dirent_size : ℕ
dirent_size = 16

abbrev pub dirsiz : ℕ
dirsiz = 14

abbrev pub t_dir : ℕ
t_dir = 1

-- `struct dirent` in its bytes: `inum`, low byte first, and `name`.
abbrev pub inum_of : List ℕ → ℕ
inum_of de = get_or de 0 0 + 256 * get_or de 1 0

abbrev pub name_of : List ℕ → ℕ → ℕ
name_of de i = get_or de (2 + i) 0

abbrev pub is_zero : ℤ → Bool
is_zero (pos n) = n == 0
is_zero (negsuc n) = false

-- `namecmp(s, t)`
unfoldable pub namecmp : (ℕ → ℕ) → (ℕ → ℕ) → ℤ
unfolding strncmp
namecmp s t = strncmp s t dirsiz 0

-- The loop of `dirlookup` from `off` on, to the offset and the number of the entry it finds; a turn
-- moves on by an entry, so fuel of the size is enough.
unfoldable pub look_loop :
    (ℕ → Option (ℕ → Option (List ℕ)))
    → Super
    → (ℕ → ℕ)
    → ℕ
    → ℕ
    → Body
    → Outcome (Option (ℕ × ℕ) × Body)
unfolding readi namecmp
look_loop devsw sb name zero off s = done (none, s)
look_loop devsw sb name (suc fuel) off s =
    if leb s.ip.size off
    then done (none, s)
    else (readi devsw sb off dirent_size s >>= λ r. elim r.0 [
      | none ↦ panic
      | some de ↦
          let next = look_loop devsw sb name fuel (off + dirent_size) r.1 in
          if length de == dirent_size
          then (if inum_of de == 0
              then next
              else if is_zero (namecmp name (name_of de))
              then done (some (off, inum_of de), r.1)
              else next)
          else panic
    ])

-- The offset and the place of the inode in the cache, if the directory has the name.
unfoldable pub dirlookup :
    (ℕ → Option (ℕ → Option (List ℕ)))
    → Super
    → ℕ
    → (ℕ → ℕ)
    → Body
    → List Inode
    → Outcome (Option (ℕ × ℕ) × Body × List Inode)
unfolding look_loop iget
dirlookup devsw sb dev name s ips =
    if s.ip.kind == t_dir
    then (look_loop devsw sb name s.ip.size 0 s >>= λ r. elim r.0 [
      | none ↦ done (none, r.1, ips)
      | some (off, inum) ↦ iget dev inum ips >>= λ q. done (some (off, q.0), r.1, q.1)
    ])
    else panic
