-- ===== src/Fs/Lifetime/Tests.antt =====
-- The last reference to the sample file, which has no links (fs.c).
use ducko_unix.Prelude.{arith, ◌≡◌, refl, true, false, some, none, [], ◌∷◌, done, ◌⊎◌}
use ducko_unix.Fs.Icache.{Dinode, Inode}
use ducko_unix.Fs.Content.Sample.{sb, disk, inode, file-IsOwner}
use ducko_unix.Fs.Lifetime.{Store, scan_inodes, iput}
use ducko_unix.Fs.Lifetime.Put.{IsGone, IsReleased, is_last, iput_lem}

abbrev unlinked : Dinode
unlinked = record inode { nlink = 0 }

abbrev entry : Inode
entry = record { dev = 1; inum = 5; ref = 1; holder = none; valid = true; copy = unlinked }

abbrev store : Store
store = record { fs = record { inodes = entry ∷ []; disk = λ d k. unlinked }; blocks = disk }

none_free : scan_inodes (store.fs.disk 1) 7 1 ≡ none
unfolding scan_inodes
none_free = refl

iput_lem_example :
    (t : Store) × (iput sb 0 store ≡ done (some t))
    × (((is_last entry ≡ true) × IsGone sb 0 entry store t)
        ⊎ ((is_last entry ≡ false) × IsReleased 0 entry store t))
iput_lem_example = iput_lem sb 0 entry store refl refl (omega arith) (λ last. file-IsOwner)
