-- ===== src/Fs/Lifetime.antt =====
-- How an inode comes and goes (fs.c): `ialloc` and `iput`, over the inode cache and the content of
-- inodes. The transaction and the lock of the cache are the caller's.
pub mod Put
mod Tests
use ducko_unix.Prelude.{
  ℕ, zero, suc, ◌-◌, ◌==◌, ◌&&◌, false, Option, none, some, if◌then◌else◌, get_elem?, modify,
  Outcome, done, panic, ◌>>=◌,
}
use ducko_unix.Fs.FreeMap.{Disk, Super}
use ducko_unix.Fs.Icache.{Dinode, Inode, Fs, iget, iupdate}
use ducko_unix.Fs.Content.{Body, itrunc}

-- A `struct dinode` of zeros but for its type.
abbrev pub blank_inode : ℕ → Dinode
blank_inode kind = record { kind = kind; major = 0; minor = 0; nlink = 0; size = 0; addrs = λ i. 0 }

-- The loop of `ialloc` at `inum`, with `k` inodes left.
unfoldable pub scan_inodes : (ℕ → Dinode) → ℕ → ℕ → Option ℕ
scan_inodes disk zero inum = none
scan_inodes disk (suc k) inum =
    let rest = scan_inodes disk k (suc inum) in if (disk inum).kind == 0 then some inum else rest

abbrev pub put_inode : ℕ → ℕ → Dinode → (ℕ → ℕ → Dinode) → ℕ → ℕ → Dinode
put_inode dev inum ip disk d k = if d == dev && k == inum then ip else disk d k

unfoldable pub ialloc : ℕ → ℕ → ℕ → Fs → Outcome (ℕ × Fs)
unfolding scan_inodes iget
ialloc ninodes dev kind s = elim (scan_inodes (s.disk dev) (ninodes - 1) 1) [
  | none ↦ panic
  | some inum ↦ iget dev inum s.inodes >>= λ q.
      done (q.0, record { inodes = q.1; disk = put_inode dev inum (blank_inode kind) s.disk })
]

-- The inodes, in the cache and on disk, and the blocks.
pub record Store : Type 0 where
  pub fs : Fs
  pub blocks : Disk

-- `ip->ref--`, of an entry that has a reference.
abbrev pub one_less : Inode → Inode
one_less ip = record ip { ref = ip.ref - 1 }

-- `ip->type = 0; iupdate(ip); ip->valid = 0;` after `itrunc`, which leaves `t`.
unfoldable pub retired : ℕ → Inode → Body → Store → Store
retired i ip t s =
    let changed : Fs = record {
      inodes = modify s.fs.inodes i (λ ip. record ip { copy = record t.ip { kind = 0 } });
      disk = put_inode ip.dev ip.inum t.saved s.fs.disk;
    } in
    let written : Fs = iupdate i changed in
    record {
      fs = record written { inodes = modify written.inodes i (λ ip. record ip { valid = false }) };
      blocks = t.disk;
    }

unfoldable pub free_last : Super → ℕ → Inode → Store → Outcome Store
free_last sb i ip s =
    itrunc sb (record { ip = ip.copy; disk = s.blocks; saved = s.fs.disk ip.dev ip.inum }) >>= λ t.
    done (retired i ip t s)

-- `none` where the caller sleeps for the lock.
unfoldable pub iput : Super → ℕ → Store → Outcome (Option Store)
iput sb i s = elim (get_elem? s.fs.inodes i) [
  | none ↦ panic
  | some ip ↦ elim ip.holder [
    | some other ↦ done none
    | none ↦
        (if ip.valid && ip.copy.nlink == 0 && ip.ref == 1 then free_last sb i ip s else done s)
        >>= λ t.
            done (some (record t { fs = record t.fs { inodes = modify t.fs.inodes i one_less } }))
  ]
]
