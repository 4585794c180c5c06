-- ===== src/Fs/Icache/Tests.antt =====
-- Runs of the inode cache with two entries.
use ducko_unix.Prelude.{
  All, ◌≢◌, if◌then◌else◌, ◌==◌, ℕ, ◌≡◌, ◌≢◌, refl, List, [], ◌∷◌, none, some, false, arith, done,
  panic, ◌⊎◌, zero, suc,
}
use ducko_unix.Fs.Icache.{Dinode, Inode, Fs, iget, ilock}
use ducko_unix.Fs.Icache.Entries.{iget_lem, IsGot, IsUnique, copies}
use ducko_unix.Fs.Icache.Copies.{ilock_lem, IsLocked, IsWritten}

abbrev on_disk : Dinode
on_disk = record {
  kind = 2;
  major = 0;
  minor = 0;
  nlink = 1;
  size = 512;
  addrs = λ i. if i == 0 then 29 else 0;
}

abbrev stale : Dinode
stale = record { kind = 0; major = 0; minor = 0; nlink = 0; size = 0; addrs = λ i. 0 }

abbrev used_inode : Inode
used_inode = record { dev = 1; inum = 5; ref = 1; holder = none; valid = false; copy = stale }

abbrev free_inode : Inode
free_inode = record { dev = 0; inum = 0; ref = 0; holder = none; valid = false; copy = stale }

abbrev inodes : List Inode
inodes = used_inode ∷ free_inode ∷ []

abbrev fs : Fs
fs = record { inodes = inodes; disk = λ d k. on_disk }

unique : IsUnique inodes
unique d k = ground arith

iget_lem_example :
    ((i : ℕ) × (ips' : List Inode) × (iget 1 7 inodes ≡ done (i, ips')) × IsGot 1 7 inodes ips' i)
    ⊎ ((iget 1 7 inodes ≡ panic) × (copies 1 7 inodes ≡ 0) × All (λ ip. ip.ref ≢ 0) inodes)
iget_lem_example = iget_lem 1 7 inodes unique

written : IsWritten fs
written zero ip e u v = cc
written (suc zero) ip e u v = cc
written (suc (suc j)) ip e u v = cc

ilock_lem_example :
    ((ilock 3 0 fs ≡ done none) × (used_inode.holder ≢ none))
    ⊎ ((ilock 3 0 fs ≡ panic) × (used_inode.valid ≡ false) × (on_disk.kind ≡ 0))
    ⊎ ((t : Fs) × (ilock 3 0 fs ≡ done (some t)) × IsLocked 3 0 fs t used_inode)
ilock_lem_example = ilock_lem 3 0 fs used_inode written refl (omega arith)
