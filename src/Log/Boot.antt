-- ===== src/Log/Boot.antt =====
-- Recovery at boot, itself interrupted any number of times (log.c, `initlog`).
use ducko_unix.Prelude.{
  ℕ, ◌<◌, ◌≤◌, ◌≡◌, refl, List, [], ◌∷◌, update, arith, loop, loop_inv_zero, ◌∙◌,
}
use ducko_unix.Log.{Block, header_n, header_block, started, read_head, initlog, bread}
use ducko_unix.Log.Disk.{IsHome, committed, IsSound}
use ducko_unix.Log.Recover.{Ready, finish-Finished}

read_listed :
    (words : Block) (k : ℕ) (old : ℕ → ℕ)
    → (i : ℕ) → i < k
    → loop k 0 (λ j block. update block j (header_block words j)) old i ≡ header_block words i
read_listed words k old =
    let store = λ (j : ℕ) (block : ℕ → ℕ). update block j (header_block words j) in
    loop_inv_zero (λ j block. (i : ℕ) → i < j → block i ≡ header_block words i) k store old
      (λ j block hi kept i lt. ground (arith, kept i)) (λ i lt. absurd (omega arith))

read_head-Ready :
    (start size power : ℕ) (d : ℕ → Block)
    → IsSound start size d
    → Ready (read_head (started start size power d))
unfolding read_head bread
read_head-Ready start size power d v =
    let listed = read_listed (d start) (header_n (d start)) (λ i. 0) in
    record {
      count = refl;
      listed = listed;
      copies = λ i lt. ground arith;
      sound = record { room = v.room; home = λ i lt. ground (arith, listed i lt, v.home i lt) };
    }

-- What `initlog` leaves on the disk, wherever it stops.
pub record Booted (start size power : ℕ) (d u : ℕ → Block) : Type 0 where
  pub view : (b : ℕ) → IsHome start size b → committed start u b ≡ committed start d b
  pub sound : IsSound start size u
  pub cleared :
      header_n (d start) < power
      → (header_n (u start) ≡ 0) × ((b : ℕ) → IsHome start size b → u b ≡ committed start d b)

pub initlog-Booted :
    (start size power : ℕ) (d : ℕ → Block)
    → IsSound start size d
    → Booted start size power d (initlog start size power d).disk
unfolding initlog read_head bread
initlog-Booted start size power d v =
    let f = finish-Finished (read_head-Ready start size power d v) in
    record { view = f.view; sound = f.sound; cleared = f.cleared }

-- Boots that lose power, each after the given number of writes.
abbrev pub reboots : ℕ → ℕ → List ℕ → (ℕ → Block) → ℕ → Block
reboots start size [] d = d
reboots start size (p ∷ ps) d = reboots start size ps (initlog start size p d).disk

reboots-committed :
    (start size : ℕ) (ps : List ℕ) (d : ℕ → Block)
    → IsSound start size d
    → IsSound start size (reboots start size ps d)
      × ((b : ℕ)
          → IsHome start size b
          → committed start (reboots start size ps d) b ≡ committed start d b)
reboots-committed start size [] d v = (v, λ b hb. refl)
reboots-committed start size (p ∷ ps) d v =
    let f = initlog-Booted start size p d v in
    let (v', same) = reboots-committed start size ps (initlog start size p d).disk f.sound in
    (v', λ b hb. same b hb ∙ f.view b hb)

-- However often recovery loses power, after any number of its writes each time: a boot that has
-- power for as many writes as the log has blocks leaves the header clear and every block outside
-- the log as the first image had committed it.
pub recovery_restarts :
    (start size power : ℕ) (ps : List ℕ) (d : ℕ → Block)
    → IsSound start size d
    → size ≤ power
    → let u = (initlog start size power (reboots start size ps d)).disk in
      (header_n (u start) ≡ 0) × ((b : ℕ) → IsHome start size b → u b ≡ committed start d b)
recovery_restarts start size power ps d v h =
    let (v', same) = reboots-committed start size ps d v in
    let f =
      (initlog-Booted start size power (reboots start size ps d) v').cleared
        (omega (arith, v'.room)) in
    (f.0, λ b hb. f.1 b hb ∙ same b hb)
