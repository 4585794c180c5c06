-- ===== src/Fs/Content/RoundTrip.antt =====
-- What `writei` writes, `readi` (fs.c) reads.
use ducko_unix.Prelude.{
  ℕ, suc, ◌+◌, ◌-◌, ◌*◌, ◌<◌, ◌≤◌, min, ltb, leb, ◌≡◌, ◌≢◌, refl, true, false, ◌&&◌, ◌||◌, done,
  Option, some, List, [], ◌∷◌, length, get_or, arith, ap, ◌∙◌, sym,
}
use ducko_unix.Fs.FreeMap.{Super}
use ducko_unix.Fs.Content.{bsize, maxfile, t_dev, Body, writei, readi, slice}
use ducko_unix.Fs.Content.Read.{readi_lem, content}
use ducko_unix.Fs.Content.Write.{IsFile, writei_lem}

slice-source :
    (f : ℕ → ℕ) (off : ℕ) (src : List ℕ)
    → ((i : ℕ) → i < length src → f (off + i) ≡ get_or src i 0)
    → slice f off (length src) ≡ src
slice-source f off [] h = refl
slice-source f off (x ∷ src) h =
    let first : f off ≡ x = ap f (omega arith) ∙ h 0 (omega arith) in
    let rest = slice-source f (off + 1) src (λ i lt.
      ap f (omega arith)
      ∙ h (i + 1) (omega arith)
      ∙ ap (λ i. get_or (x ∷ src) i 0) (let e : i + 1 ≡ suc i = omega arith in e)) in
    ap (λ l. f off ∷ l) rest ∙ ap (λ y. y ∷ src) first

-- What is written is read back.
pub readi-writei :
    (reads : ℕ → Option (ℕ → Option (List ℕ))) (writes : ℕ → Option (List ℕ → Option ℕ))
    (sb : Super) (off : ℕ) (src : List ℕ) (s : Body)
    → s.ip.kind ≢ t_dev
    → IsFile sb s
    → off ≤ s.ip.size
    → off + length src ≤ maxfile * bsize
    → (t : Body) × (writei writes sb off src s ≡ done (some (length src), t))
      × (readi reads sb off (length src) t ≡ done (some src, t))
readi-writei reads writes sb off src s file v le small =
    let (t, runs, w, kind, size, bytes) = writei_lem writes sb off src s file v le small in
    let n = length src in
    let size_bound : t.ip.size ≤ maxfile * bsize = w.bound in
    let ok : (ltb t.ip.size off || leb 4294967296 (off + n)) ≡ false =
      ground (arith, size, small) in
    let all : min n (t.ip.size - off) ≡ n = ground (arith, size) in
    let read =
      readi_lem reads sb off n t (λ z. file (sym kind ∙ z)) w.whole w.bound (omega (arith, small))
        (omega (arith, small)) in
    let source : slice (content t.disk t.ip.addrs) off n ≡ src =
      slice-source (content t.disk t.ip.addrs) off src (λ i lt.
        let test : (leb off (off + i) && ltb (off + i) (off + n)) ≡ true = ground (arith, lt) in
        let place : off + i - off ≡ i = omega arith in
        bytes (off + i) (ground (arith, size, lt)) ∙ rw test (ap (λ i. get_or src i 0) place)) in
    (t, runs, read ∙ rw (ok, all, source) refl)
