-- ===== src/Fs/Content/Tests.antt =====
-- The content of inodes (fs.c) on the sample file.
use ducko_unix.Prelude.{
  ℕ, suc, ◌+◌, ◌-◌, ◌<◌, ◌≤◌, min, ltb, leb, ◌≡◌, ◌&&◌, ◌||◌, if◌then◌else◌, done, Option, none,
  some, [], ◌∷◌, get_or, arith,
}
use ducko_unix.Fs.Content.{maxfile, Mapped, bmap, slice, Body, readi, writei, itrunc}
use ducko_unix.Fs.Content.Slots.{slot}
use ducko_unix.Fs.Content.Filled.{IsFilled}
use ducko_unix.Fs.Content.Bmap.{bmap_lem}
use ducko_unix.Fs.Content.Read.{content, readi_lem}
use ducko_unix.Fs.Content.Turn.{later}
use ducko_unix.Fs.Content.Write.{IsFile, writei_lem}
use ducko_unix.Fs.Content.RoundTrip.{readi-writei}
use ducko_unix.Fs.Content.Freed.{IsFreed}
use ducko_unix.Fs.Content.Trunc.{itrunc_lem}
use ducko_unix.Fs.Content.Sample.{
  sb, disk, inode, file, blocks, file-IsOwner, file-IsWhole, file-IsFile,
}

bmap_lem_example :
    (q : Mapped) × (bmap sb inode.addrs 20 disk ≡ done q) × IsFilled sb disk inode.addrs 20 q
bmap_lem_example = bmap_lem sb disk inode.addrs 20 file-IsOwner (omega arith)

no_devices : {A : Type 0} → ℕ → Option A
no_devices n = none

readi_lem_example :
    readi no_devices sb 2 4 file
    ≡ done (
      if ltb 8 2 || leb 4294967296 (2 + 4)
          then none
          else some (slice (content disk inode.addrs) 2 (min 4 (8 - 2))),
      file,
    )
readi_lem_example =
    readi_lem no_devices sb 2 4 file (λ z. absurd (omega (arith, z))) file-IsWhole (omega arith)
      (omega arith) (omega arith)

writei_lem_example :
    (t : Body) × (writei no_devices sb 6 (65 ∷ 66 ∷ 67 ∷ []) file ≡ done (some 3, t))
    × IsFile sb t
    × (t.ip.kind ≡ 2)
    × (t.ip.size ≡ later 8 (6 + 3))
    × ((p : ℕ)
        → p < t.ip.size
        → content t.disk t.ip.addrs p ≡ (
            if leb 6 p && ltb p (6 + 3)
            then get_or (65 ∷ 66 ∷ 67 ∷ []) (p - 6) 0
            else content disk inode.addrs p))
writei_lem_example =
    writei_lem no_devices sb 6 (65 ∷ 66 ∷ 67 ∷ []) file (λ z. absurd (omega (arith, z))) file-IsFile
      (omega arith) (omega arith)

readi-writei_example :
    (t : Body) × (writei no_devices sb 6 (65 ∷ 66 ∷ 67 ∷ []) file ≡ done (some 3, t))
    × (readi no_devices sb 6 3 t ≡ done (some (65 ∷ 66 ∷ 67 ∷ []), t))
readi-writei_example =
    readi-writei no_devices no_devices sb 6 (65 ∷ 66 ∷ 67 ∷ []) file
      (λ z. absurd (omega (arith, z))) file-IsFile (omega arith) (omega arith)

itrunc_lem_example :
    (t : Body) × (itrunc sb file ≡ done t)
    × IsFreed sb blocks 0 (suc maxfile) disk t.disk
    × (t.ip.size ≡ 0)
    × ((i : ℕ) → i ≤ maxfile → slot t.disk t.ip.addrs i ≡ 0)
    × (t.saved ≡ t.ip)
itrunc_lem_example = itrunc_lem sb file file-IsOwner
