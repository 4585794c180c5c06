-- ===== src/Fs/Icache.antt =====
-- The inode cache of fs.c: `iget`, `idup`, `ilock`, `iunlock`, `iupdate`. The disk's inodes are a
-- function from device and number; a pointer to an inode is its place in `icache.inode`. `iget` and
-- `idup` run with `icache.lock` held.
pub mod Entries
pub mod Copies
mod Tests
use ducko_unix.Prelude.{
  ℕ, zero, suc, ◌+◌, ltb, ◌==◌, Bool, true, false, ◌&&◌, ◌||◌, not, List, [], ◌∷◌, Option, none,
  some, if◌then◌else◌, get_elem?, modify, Outcome, done, panic,
}

-- `struct dinode`, and the part of `struct inode` that is a copy of it. No type is the number 0.
pub record Dinode : Type 0 where
  pub kind : ℕ
  pub major : ℕ
  pub minor : ℕ
  pub nlink : ℕ
  pub size : ℕ
  pub addrs : ℕ → ℕ

-- `struct inode`; `holder` is the process that has the sleep lock.
pub record Inode : Type 0 where
  pub dev : ℕ
  pub inum : ℕ
  pub ref : ℕ
  pub holder : Option ℕ
  pub valid : Bool
  pub copy : Dinode

abbrev pub is_cached : ℕ → ℕ → Inode → Bool
is_cached dev inum ip = ltb 0 ip.ref && ip.dev == dev && ip.inum == inum

unfoldable pub find_cached : ℕ → ℕ → List Inode → Option ℕ
find_cached dev inum [] = none
find_cached dev inum (ip ∷ ips) =
    let rest = find_cached dev inum ips in
    if is_cached dev inum ip then some 0 else elim rest [ none ↦ none | some i ↦ some (suc i) ]

unfoldable pub find_empty : List Inode → Option ℕ
find_empty [] = none
find_empty (ip ∷ ips) =
    let rest = find_empty ips in
    if ip.ref == 0 then some 0 else elim rest [ none ↦ none | some i ↦ some (suc i) ]

abbrev pub one_more : Inode → Inode
one_more ip = record ip { ref = ip.ref + 1 }

abbrev pub recycled : ℕ → ℕ → Inode → Inode
recycled dev inum ip = record ip { dev = dev; inum = inum; ref = 1; valid = false }

unfoldable pub iget : ℕ → ℕ → List Inode → Outcome (ℕ × List Inode)
unfolding find_cached find_empty
iget dev inum ips = elim (find_cached dev inum ips) [
  | some i ↦ done (i, modify ips i one_more)
  | none ↦ elim (find_empty ips) [
    | none ↦ panic
    | some i ↦ done (i, modify ips i (recycled dev inum))
  ]
]

abbrev pub idup : ℕ → List Inode → List Inode
idup i ips = modify ips i one_more

pub record Fs : Type 0 where
  pub inodes : List Inode
  pub disk : ℕ → ℕ → Dinode

-- What follows `acquiresleep` in `ilock`.
abbrev pub filled : (ℕ → ℕ → Dinode) → Inode → Inode
filled disk ip = if ip.valid then ip else record ip { valid = true; copy = disk ip.dev ip.inum }

abbrev pub taken : ℕ → (ℕ → ℕ → Dinode) → Inode → Inode
taken pid disk ip = record (filled disk ip) { holder = some pid }

-- `none` when the caller sleeps for the lock.
unfoldable pub ilock : ℕ → ℕ → Fs → Outcome (Option Fs)
ilock pid i s = elim (get_elem? s.inodes i) [
  | none ↦ panic
  | some ip ↦ if ltb ip.ref 1 then panic else elim ip.holder [
    | some other ↦ done none
    | none ↦
        if not ip.valid && (s.disk ip.dev ip.inum).kind == 0
        then panic
        else done (some (record s { inodes = modify s.inodes i (taken pid s.disk) }))
  ]
]

abbrev pub holds_lock : ℕ → Inode → Bool
holds_lock pid ip = elim ip.holder [ none ↦ false | some p ↦ p == pid ]

unfoldable pub iunlock : ℕ → ℕ → Fs → Outcome Fs
iunlock pid i s = elim (get_elem? s.inodes i) [
  | none ↦ panic
  | some ip ↦
      if not (holds_lock pid ip) || ltb ip.ref 1
      then panic
      else done (record s { inodes = modify s.inodes i (λ ip. record ip { holder = none }) })
]

-- The holder changes its copy and writes it through: `iupdate`.
unfoldable pub iupdate : ℕ → Fs → Fs
iupdate i s = elim (get_elem? s.inodes i) [
  | none ↦ s
  | some ip ↦ record s {
    disk = λ dev inum. if dev == ip.dev && inum == ip.inum then ip.copy else s.disk dev inum;
  }
]
