-- ===== src/Fs/Content/Write.antt =====
-- `writei` (fs.c) puts the bytes of the source in their place and keeps the rest of the file.
use ducko_unix.Prelude.{
  ℕ, zero, suc, ◌+◌, ◌-◌, ◌*◌, ◌/◌, ◌%◌, ◌<◌, ◌≤◌, ltb, leb, ◌==◌, ◌≡◌, ◌≢◌, refl, true, false,
  ◌&&◌, if◌then◌else◌, done, Option, some, List, length, length-drop, get_or, drop, arith, ap, ◌∙◌,
  sym, subst, Bool-cases, inl, inr, ne→==_false,
}
use ducko_unix.Fs.FreeMap.{Super}
use ducko_unix.Fs.Content.{bsize, maxfile, t_dev, Body, chunk, write_loop, grown, writei}
use ducko_unix.Fs.Content.Slots.{slot, IsOwner}
use ducko_unix.Fs.Content.Bmap.{bmap_lem}
use ducko_unix.Fs.Content.Read.{content, IsWhole}
use ducko_unix.Fs.Content.Turn.{later, IsWritten, get_or-drop, after_turn, turn-IsWritten}

both-IsWritten :
    (sb : Super) (size off m n : ℕ) (src : List ℕ) (s u t : Body)
    → m ≤ n
    → IsWritten sb size off src m s u
    → IsWritten sb (later size (off + m)) (off + m) (drop m src) (n - m) u t
    → IsWritten sb size off src n s t
both-IsWritten sb size off m n src s u t le f g =
    let end : off + m + (n - m) ≡ off + n = omega (arith, le) in
    let size' : later (later size (off + m)) (off + m + (n - m)) ≡ later size (off + n) =
      ground (arith, le) in
    record {
      owner = g.owner;
      whole = λ i lt. g.whole i (omega (arith, size', lt));
      bytes = λ p lt.
          g.bytes p (omega (arith, size', lt))
          ∙ elim (Bool-cases (leb (off + m) p && ltb p (off + m + (n - m)))) [
            | inl second ↦
                let test : (leb off p && ltb p (off + n)) ≡ true = ground (arith, second, end) in
                let i : m + (p - (off + m)) ≡ p - off = ground (arith, second) in
                rw (second, test) (get_or-drop src m (p - (off + m)) ∙ ap (λ i. get_or src i 0) i)
            | inr other ↦
                let test : (leb off p && ltb p (off + n)) ≡ (leb off p && ltb p (off + m)) =
                  ground (arith, other, end, le) in
                rw (other, test) (f.bytes p (ground (arith, other, lt, end)))
          ];
      kind_kept = g.kind_kept ∙ f.kind_kept;
      size_kept = g.size_kept ∙ f.size_kept;
      saved_kept = g.saved_kept ∙ f.saved_kept;
      inside = λ fits. g.inside (ground (arith, fits, le)) ∙ f.inside (omega (arith, fits, le));
    }

none-IsWritten :
    (sb : Super) (size off : ℕ) (src : List ℕ) (s : Body)
    → IsOwner sb s.disk (slot s.disk s.ip.addrs)
    → IsWhole s.disk s.ip.addrs size
    → off ≤ size
    → IsWritten sb size off src 0 s s
none-IsWritten sb size off src s v whole le = record {
  owner = v;
  whole = λ i lt. whole i (ground (arith, lt, le));
  bytes = λ p lt. let test : (leb off p && ltb p (off + 0)) ≡ false = ground arith in rw test refl;
  kind_kept = refl;
  size_kept = refl;
  saved_kept = refl;
  inside = λ _. refl;
}

write_loop-IsWritten :
    (sb : Super) (fuel size off : ℕ) (src : List ℕ) (s : Body)
    → IsOwner sb s.disk (slot s.disk s.ip.addrs)
    → IsWhole s.disk s.ip.addrs size
    → size ≤ maxfile * bsize
    → off ≤ size
    → off + length src ≤ maxfile * bsize
    → length src ≤ fuel
    → (t : Body) × (write_loop sb fuel off src s ≡ done t)
      × IsWritten sb size off src (length src) s t
unfolding write_loop
write_loop-IsWritten sb zero size off src s v whole bound le small enough =
    let e : 0 ≡ length src = omega arith in
    (
      s,
      refl,
      subst (λ k. IsWritten sb size off src k s s) e (none-IsWritten sb size off src s v whole le),
    )
write_loop-IsWritten sb (suc fuel) size off src s v whole bound le small enough =
    elim (Bool-cases (length src == 0)) [
      | inl stop ↦
          let e : 0 ≡ length src = ground (arith, stop) in
          (
            s,
            rw stop refl,
            subst (λ k. IsWritten sb size off src k s s) e
                (none-IsWritten sb size off src s v whole le),
          )
      | inr go ↦
          let pos : 0 < length src = ground (arith, go) in
          let m = chunk off (length src) in
          let (q, eq, f) = bmap_lem sb s.disk s.ip.addrs (off / bsize) v (omega arith) in
          let first = turn-IsWritten sb size off src s q whole bound le small pos eq f in
          let len = length-drop m src in
          let (t, eq', rest) =
            write_loop-IsWritten sb fuel (later size (off + m)) (off + m) (drop m src)
              (after_turn s q off src) first.owner first.whole (ground (arith, small, bound))
              (ground arith) (omega (arith, len, small, pos)) (omega (arith, len, enough, pos)) in
          (
            t,
            rw (go, eq) eq',
            both-IsWritten sb size off m (length src) src s (after_turn s q off src) t (omega arith)
                first
                (subst
                  (λ k.
                    IsWritten sb (later size (off + m)) (off + m) (drop m src) k
                      (after_turn s q off src) t)
                  len rest),
          )
    ]

-- An inode that is a file: it owns its blocks, has all of them below its size, and is on disk as in
-- memory.
pub record IsFile (sb : Super) (s : Body) : Type 0 where
  pub owner : IsOwner sb s.disk (slot s.disk s.ip.addrs)
  pub whole : IsWhole s.disk s.ip.addrs s.ip.size
  pub bound : s.ip.size ≤ maxfile * bsize
  pub synced : s.saved ≡ s.ip

grown-IsFile :
    (sb : Super) (off : ℕ) (src : List ℕ) (s t : Body)
    → IsFile sb s
    → off ≤ s.ip.size
    → off + length src ≤ maxfile * bsize
    → IsWritten sb s.ip.size off src (length src) s t
    → IsFile sb (grown (length src) (off + length src) t)
      × ((grown (length src) (off + length src) t).ip.kind ≡ s.ip.kind)
      × ((grown (length src) (off + length src) t).ip.size ≡ later s.ip.size (off + length src))
      × ((grown (length src) (off + length src) t).disk ≡ t.disk)
      × ((grown (length src) (off + length src) t).ip.addrs ≡ t.ip.addrs)
grown-IsFile sb off src s t v le small w =
    let n = length src in
    elim (Bool-cases (ltb 0 n && ltb t.ip.size (off + n))) [
      | inl grows ↦
          let size : off + n ≡ later s.ip.size (off + n) = ground (arith, grows, w.size_kept) in
          rw grows (
            record {
              owner = w.owner;
              whole = λ i lt. w.whole i (omega (arith, lt, size));
              bound = small;
              synced = refl;
            },
            w.kind_kept,
            size,
            refl,
            refl,
          )
      | inr stays ↦
          let size : s.ip.size ≡ later s.ip.size (off + n) =
            ground (arith, stays, w.size_kept, le) in
          let fits : off + n ≤ s.ip.size = ground (arith, stays, w.size_kept, le) in
          rw stays (
            record {
              owner = w.owner;
              whole = λ i lt. w.whole i (omega (arith, lt, size, w.size_kept));
              bound = omega (arith, w.size_kept, v.bound);
              synced = w.saved_kept ∙ v.synced ∙ sym (w.inside fits);
            },
            w.kind_kept,
            w.size_kept ∙ size,
            refl,
            refl,
          )
    ]

-- `writei` of a file, where the source starts in the file or at its end and the file does not grow
-- beyond 140 blocks, writes all of it: the bytes at `off` are those of the source, the others are
-- as they were, the type stays and the size reaches the end of what is written, and the inode is
-- again a file, on disk as in memory.
pub writei_lem :
    (devsw : ℕ → Option (List ℕ → Option ℕ)) (sb : Super) (off : ℕ) (src : List ℕ) (s : Body)
    → s.ip.kind ≢ t_dev
    → IsFile sb s
    → off ≤ s.ip.size
    → off + length src ≤ maxfile * bsize
    → (t : Body) × (writei devsw sb off src s ≡ done (some (length src), t))
      × IsFile sb t
      × (t.ip.kind ≡ s.ip.kind)
      × (t.ip.size ≡ later s.ip.size (off + length src))
      × ((p : ℕ)
          → p < t.ip.size
          → content t.disk t.ip.addrs p ≡ (
              if leb off p && ltb p (off + length src)
              then get_or src (p - off) 0
              else content s.disk s.ip.addrs p))
unfolding writei
writei_lem devsw sb off src s file v le small =
    let n = length src in
    let (t, eq, w) =
      write_loop-IsWritten sb n s.ip.size off src s v.owner v.whole v.bound le small
        (omega arith) in
    let no_gap : ltb s.ip.size off ≡ false = ground (arith, le) in
    let no_wrap : ltb ((off + n) % 4294967296) off ≡ false = ground (arith, small) in
    let fits : ltb (maxfile * bsize) (off + n) ≡ false = ground (arith, small) in
    let runs : writei devsw sb off src s ≡ done (some n, grown n (off + n) t) =
      rw (ne→==_false s.ip.kind t_dev file, no_gap, no_wrap, fits, eq) refl in
    let (is_file, kind, size, disk, addrs) = grown-IsFile sb off src s t v le small w in
    let after = grown n (off + n) t in
    (
      after,
      runs,
      is_file,
      kind,
      size,
      λ p lt.
          ap (λ d. content d after.ip.addrs p) disk
          ∙ ap (λ a. content t.disk a p) addrs
          ∙ w.bytes p (omega (arith, lt, size)),
    )
