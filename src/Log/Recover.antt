-- ===== src/Log/Recover.antt =====
-- `install_trans` and the clearing of the header: what they leave on the disk wherever the machine
-- stops (log.c).
use ducko_unix.Prelude.{
  ℕ, suc, ◌+◌, ◌-◌, ◌<◌, ◌≤◌, ◌==◌, ◌≡◌, refl, inl, inr, update, arith, loop_inv_zero, ap, sym, ◌∙◌,
  Bool-cases,
}
use ducko_unix.Log.{
  Log, Block, contents, header_n, header_block, head_words, install_one, install_trans, write_head,
}
use ducko_unix.Log.Disk.{
  IsHome, replay, committed, IsLogged, IsSound, replay_cong, replay-update, header-head_words,
  committed_lem, image-IsSound, cleared-IsSound,
}
use ducko_unix.Log.Writes.{stored, SameLog, install_one-WritesBlock, write_head-WritesBlock}

abbrev pub logged : Log → ℕ → Block
logged s i = s.disk (s.start + i + 1)

-- The header in memory is the one on the disk, and the log's blocks are read as they are there.
pub record Ready (s : Log) : Type 0 where
  pub count : s.n ≡ header_n (s.disk s.start)
  pub listed : (i : ℕ) → i < s.n → s.block i ≡ header_block (s.disk s.start) i
  pub copies : (i : ℕ) → i < s.n → contents s (s.start + i + 1) ≡ logged s i
  pub sound : IsLogged s.start s.size s.n s.block

-- After `i` rounds of `install_trans` that began in `s`.
pub record Installed (s : Log) (i : ℕ) (t : Log) : Type 0 where
  pub same : SameLog s t
  pub power : t.power ≡ s.power - i
  pub log_kept : (b : ℕ) → s.start ≤ b → b < s.start + s.size → t.disk b ≡ s.disk b
  pub log_seen : (j : ℕ) → j < s.n → contents t (s.start + j + 1) ≡ logged s j
  pub view :
      (b : ℕ) → replay s.block (logged s) t.disk s.n b ≡ replay s.block (logged s) s.disk s.n b
  pub home :
      i ≤ s.power
      → (b : ℕ) → IsHome s.start s.size b
      → t.disk b ≡ replay s.block (logged s) s.disk i b

-- Round `i` writes the logged copy to its home.
install_one-disk :
    {s : Log} (i : ℕ) (t : Log)
    → i < s.n
    → Installed s i t
    → (b : ℕ) → (install_one i t).disk b ≡ stored t.power t.disk (s.block i) (logged s i) b
install_one-disk {s} i t lt v b =
    let w = install_one-WritesBlock i t in
    let at : t.block i ≡ s.block i = ap (λ f. f i) v.same.block in
    let copy : contents t (t.start + i + 1) ≡ logged s i =
      ap (λ k. contents t (k + i + 1)) v.same.start ∙ v.log_seen i lt in
    ap (λ d. d b) w.disk ∙ ground (arith, at, copy)

replay-stored :
    (s : Log) (i power : ℕ) (d : ℕ → Block) (b : ℕ)
    → i < s.n
    → replay s.block (logged s) (stored power d (s.block i) (logged s i)) s.n b
      ≡ replay s.block (logged s) d s.n b
replay-stored s i power d b lt = elim (Bool-cases (power == 0)) [
  | inl lost ↦ rw lost
  | inr kept ↦ rw kept (replay-update s.block (logged s) d s.n i b (logged s i) lt)
]

install_one-Installed :
    {s : Log}
    → Ready s
    → (i : ℕ) (t : Log) → i < s.n
    → Installed s i t
    → Installed s (suc i) (install_one i t)
install_one-Installed {s} r i t lt v =
    let w = install_one-WritesBlock i t in
    let at : t.block i ≡ s.block i = ap (λ f. f i) v.same.block in
    let copy : contents t (t.start + i + 1) ≡ logged s i =
      ap (λ k. contents t (k + i + 1)) v.same.start ∙ v.log_seen i lt in
    record {
      same = ground (arith, w.same, v.same);
      power = omega (arith, w.power, v.power);
      log_kept = λ b lo hi.
          ground (arith, install_one-disk i t lt v b, v.log_kept b lo hi, r.sound.home i lt);
      log_seen = λ j hj.
          ground
            (arith, w.seen (s.start + j + 1), v.log_seen j hj, r.sound.home i lt, r.sound.room, at);
      view = λ b.
          replay_cong s.block s.block (logged s) (logged s) (install_one i t).disk
            (stored t.power t.disk (s.block i) (logged s i)) s.n b (λ j _. refl) (λ j _. refl)
            (install_one-disk i t lt v b)
          ∙ replay-stored s i t.power t.disk b lt
          ∙ v.view b;
      home =
          λ p b hb. ground (arith, install_one-disk i t lt v b, v.home (omega arith) b hb, v.power);
    }

install_trans-Installed : {s : Log} → Ready s → Installed s s.n (install_trans s)
unfolding install_trans
install_trans-Installed {s} r =
    loop_inv_zero (Installed s) s.n install_one s (λ i t lt v. install_one-Installed r i t lt v)
      (record {
        same = ground arith;
        power = omega arith;
        log_kept = λ b lo hi. refl;
        log_seen = r.copies;
        view = λ b. refl;
        home = λ _ b hb. refl;
      })

-- The end of `commit` and of `recover_from_log`: install, then clear the header.
abbrev pub finish : Log → Log
finish s = let s1 = install_trans s in write_head (record s1 { n = 0 })

-- What it leaves on the disk, wherever it stops: the image stands for the same blocks; and if the
-- power lasts for all its writes, the blocks are at home and the header is clear.
pub record Finished (s u : Log) : Type 0 where
  pub view :
      (b : ℕ) → IsHome s.start s.size b → committed s.start u.disk b ≡ committed s.start s.disk b
  pub sound : IsSound s.start s.size u.disk
  pub cleared :
      s.n < s.power
      → (header_n (u.disk s.start) ≡ 0)
        × ((b : ℕ) → IsHome s.start s.size b → u.disk b ≡ committed s.start s.disk b)

-- Before the header is cleared the image stands for the same blocks.
installed-committed :
    {s : Log} (d : ℕ → Block) (b : ℕ)
    → Ready s
    → ((c : ℕ) → s.start ≤ c → c < s.start + s.size → d c ≡ s.disk c)
    → replay s.block (logged s) d s.n b ≡ replay s.block (logged s) s.disk s.n b
    → committed s.start d b ≡ committed s.start s.disk b
installed-committed {s} d b r kept view =
    let head : d s.start ≡ s.disk s.start =
      kept s.start (omega arith) (omega (arith, r.sound.room)) in
    committed_lem s.start s.n d s.block b (r.count ∙ ap header_n (sym head))
      (λ i lt. r.listed i lt ∙ ap (λ w. header_block w i) (sym head))
    ∙ replay_cong s.block s.block (λ i. d (s.start + i + 1)) (logged s) d d s.n b (λ i _. refl)
        (λ i lt. kept (s.start + i + 1) (omega arith) (omega (arith, r.sound.room))) refl
    ∙ view
    ∙ sym (committed_lem s.start s.n s.disk s.block b r.count r.listed)

-- Once it is cleared the image stands for its own blocks.
pub cleared-committed :
    (start : ℕ) (d : ℕ → Block) (b : ℕ) → header_n (d start) ≡ 0 → committed start d b ≡ d b
cleared-committed start d b e =
    ap (λ k. replay (header_block (d start)) (λ i. d (start + i + 1)) d k b) e

pub finish-Finished : {s : Log} → Ready s → Finished s (finish s)
finish-Finished {s} r =
    let t = install_trans s in
    let v = install_trans-Installed r in
    let w = write_head-WritesBlock (record t { n = 0 }) in
    let words = head_words (contents t t.start) 0 t.block in
    let head = (header-head_words (contents t t.start) 0 t.block).0 in
    let disk : (finish s).disk ≡ stored t.power t.disk s.start words =
      w.disk ∙ ap (λ k. stored t.power t.disk k words) v.same.start in
    elim (Bool-cases (t.power == 0)) [
      | inl lost ↦
          rw (disk, lost)
            (record {
              view = λ b hb. installed-committed t.disk b r v.log_kept (v.view b);
              sound =
                  image-IsSound s.start s.size s.n s.block t.disk
                    (r.count
                      ∙ ap header_n
                          (sym (v.log_kept s.start (omega arith) (omega (arith, r.sound.room)))))
                    (λ i lt.
                      r.listed i lt
                      ∙ ap (λ k. header_block k i)
                          (sym (v.log_kept s.start (omega arith) (omega (arith, r.sound.room)))))
                    r.sound;
              cleared = λ p. absurd (ground (arith, v.power));
            })
      | inr kept ↦
          let whole : s.n ≤ s.power = ground (arith, v.power) in
          let clear : header_n (update t.disk s.start words s.start) ≡ 0 = ground (arith, head) in
          let at_home : (b : ℕ)
              → IsHome s.start s.size b
              → update t.disk s.start words b ≡ committed s.start s.disk b =
            λ b hb. ground (
              arith,
              v.home whole b hb,
              committed_lem s.start s.n s.disk s.block b r.count r.listed,
              r.sound.room,
            ) in
          rw (disk, kept)
            (record {
              view = λ b hb.
                  cleared-committed s.start (update t.disk s.start words) b clear ∙ at_home b hb;
              sound =
                  cleared-IsSound s.start s.size (update t.disk s.start words) clear
                    (omega (arith, r.sound.room));
              cleared = λ p. (clear, at_home);
            })
    ]
