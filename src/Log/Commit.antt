-- ===== src/Log/Commit.antt =====
-- `commit`: all of a group's writes or none, wherever the machine stops (log.c).
use ducko_unix.Prelude.{
  ℕ, ◌+◌, ◌*◌, ◌<◌, ◌≤◌, ◌==◌, ◌≡◌, refl, ◌⊎◌, inl, inr, if◌then◌else◌, arith, loop_inv_zero, ap,
  sym, ◌∙◌, List, dec_lt,
}
use ducko_unix.Log.{
  Log, Block, contents, header_n, header_block, head_words, install_trans, install_one, write_log,
  write_head, commit, initlog,
}
use ducko_unix.Log.Disk.{
  IsHome, replay, committed, IsSound, replay_cong, header-head_words, committed_lem,
  cleared-IsSound,
}
use ducko_unix.Log.Writes.{stored, SameLog, write_head-WritesBlock, install_one-WritesBlock}
use ducko_unix.Log.Recover.{Ready, finish, finish-Finished, cleared-committed}
use ducko_unix.Log.Boot.{reboots, recovery_restarts}
use ducko_unix.Log.WriteLog.{Pending, intended, write_log-Logged}

-- Without power the disk stays as it is.
finish-powerless : (s : Log) → s.power ≡ 0 → (finish s).disk ≡ s.disk
unfolding install_trans
finish-powerless s h =
    let t = install_trans s in
    let v : (t.power ≡ 0) × (t.disk ≡ s.disk) =
      loop_inv_zero (λ i u. (u.power ≡ 0) × (u.disk ≡ s.disk)) s.n install_one s
        (λ i u lt kept.
          let w = install_one-WritesBlock i u in (omega (arith, w.power), w.disk ∙ ground arith))
        (h, refl) in
    (write_head-WritesBlock (record t { n = 0 })).disk ∙ ground arith

-- Where the header is not written the old blocks stand, and where it is the new ones.
pub record Committed (s u : Log) : Type 0 where
  pub sound : IsSound s.start s.size u.disk
  pub atomic :
      ((b : ℕ) → IsHome s.start s.size b → committed s.start u.disk b ≡ s.disk b)
      ⊎ ((b : ℕ) → IsHome s.start s.size b → committed s.start u.disk b ≡ intended s b)
  pub durable :
      2 * s.n + 1 < s.power
      → (header_n (u.disk s.start) ≡ 0)
        × ((b : ℕ) → IsHome s.start s.size b → u.disk b ≡ intended s b)

module _ {s : Log} (q : Pending s) where
  abbrev before : Log
  before = write_log s

  abbrev headed : Log
  headed = write_head before

  abbrev head : Block
  head = head_words (contents before before.start) before.n before.block

  headed-disk : headed.disk ≡ stored before.power before.disk s.start head
  headed-disk =
      let v = write_log-Logged q in
      (write_head-WritesBlock before).disk
      ∙ ap (λ k. stored before.power before.disk k head) v.same.start

  -- Power is gone by the time of the header.
  lost-Committed : before.power ≡ 0 → Committed s (finish headed)
  lost-Committed e =
      let v = write_log-Logged q in
      let w = write_head-WritesBlock before in
      let gone : headed.power ≡ 0 = omega (arith, w.power) in
      let disk : (finish headed).disk ≡ before.disk =
        finish-powerless headed gone ∙ headed-disk ∙ ground arith in
      let clear : header_n (before.disk s.start) ≡ 0 = ap header_n v.head_kept ∙ q.clear in
      rw disk (record {
        sound = cleared-IsSound s.start s.size before.disk clear (omega (arith, q.listed.room));
        atomic = inl (λ b hb. cleared-committed s.start before.disk b clear ∙ v.home_kept b hb);
        durable = λ h. absurd (omega (arith, v.power));
      })

  headed-same : SameLog s headed
  headed-same =
      let v = write_log-Logged q in
      let w = write_head-WritesBlock before in ground (arith, w.same, v.same)

  head-count : header_n head ≡ s.n
  head-count =
      (header-head_words (contents before before.start) before.n before.block).0
      ∙ (write_log-Logged q).same.n

  head-listed : (i : ℕ) → i < s.n → header_block head i ≡ s.block i
  head-listed i lt =
      let v = write_log-Logged q in
      (header-head_words (contents before before.start) before.n before.block).1 i
        (omega (arith, v.same.n))
      ∙ ap (λ f. f i) v.same.block

  headed-disk_at :
      0 < before.power → (b : ℕ) → headed.disk b ≡ (if s.start == b then head else before.disk b)
  headed-disk_at h b = ap (λ d. d b) headed-disk ∙ ground arith

  headed-at_start : 0 < before.power → headed.disk s.start ≡ head
  headed-at_start h = headed-disk_at h s.start ∙ ground arith

  headed-copies :
      0 < before.power → (i : ℕ) → i < s.n → headed.disk (s.start + i + 1) ≡ contents s (s.block i)
  headed-copies h i lt =
      let v = write_log-Logged q in
      ground (arith, headed-disk_at h (s.start + i + 1), v.log_disk (omega (arith, v.power)) i lt)

  headed-seen : (i : ℕ) → i < s.n → contents headed (s.start + i + 1) ≡ contents s (s.block i)
  headed-seen i lt =
      let v = write_log-Logged q in
      (write_head-WritesBlock before).seen (s.start + i + 1)
      ∙ ground (arith, v.same.start, v.log_seen i lt)

  -- With the header written, the log holds what the group wants.
  headed-Ready : 0 < before.power → Ready headed
  headed-Ready h =
      let e = headed-same in
      let at_start : headed.disk headed.start ≡ head = ap headed.disk e.start ∙ headed-at_start h in
      record {
        count = e.n ∙ sym head-count ∙ ap header_n (sym at_start);
        listed = λ i lt.
            let lt' : i < s.n = omega (arith, e.n) in
            ap (λ f. f i) e.block
            ∙ sym (head-listed i lt')
            ∙ ap (λ w. header_block w i) (sym at_start);
        copies = λ i lt.
            let lt' : i < s.n = omega (arith, e.n) in
            ap (λ k. contents headed (k + i + 1)) e.start
            ∙ headed-seen i lt'
            ∙ sym (headed-copies h i lt')
            ∙ ap (λ k. headed.disk (k + i + 1)) (sym e.start);
        sound = record {
          room = omega (arith, e.n, e.size, q.listed.room);
          home = λ i lt.
              let lt' : i < s.n = omega (arith, e.n) in
              ground (arith, ap (λ f. f i) e.block, q.listed.home i lt', e.start, e.size);
        };
      }

  headed-committed :
      0 < before.power
      → (b : ℕ) → IsHome s.start s.size b
      → committed s.start headed.disk b ≡ intended s b
  headed-committed h b hb =
      let v = write_log-Logged q in
      committed_lem s.start s.n headed.disk s.block b
        (sym head-count ∙ ap header_n (sym (headed-at_start h)))
        (λ i lt. sym (head-listed i lt) ∙ ap (λ w. header_block w i) (sym (headed-at_start h)))
      ∙ replay_cong s.block s.block (λ i. headed.disk (s.start + i + 1))
          (λ i. contents s (s.block i)) headed.disk s.disk s.n b (λ i _. refl) (headed-copies h)
          (ground (arith, headed-disk_at h b, v.home_kept b hb, q.listed.room))

  kept-Committed : 0 < before.power → Committed s (finish headed)
  kept-Committed h =
      let v = write_log-Logged q in
      let e = headed-same in
      let f = finish-Finished (headed-Ready h) in
      let u = finish headed in
      let home = λ (b : ℕ) (hb : IsHome s.start s.size b).
        let hb' : IsHome headed.start headed.size b = omega (arith, e.start, e.size) in hb' in
      let view : (b : ℕ) → IsHome s.start s.size b → committed s.start u.disk b ≡ intended s b =
        λ b hb.
          ap (λ k. committed k u.disk b) (sym e.start)
          ∙ f.view b (home b hb)
          ∙ ap (λ k. committed k headed.disk b) e.start
          ∙ headed-committed h b hb in
      record {
        sound = record {
          room = ground (arith, f.sound.room, e.start, e.size);
          home = λ i lt. ground (
            arith,
            f.sound.home i (ground (arith, e.start)),
            ap (λ k. header_block (u.disk k) i) e.start,
            e.start,
            e.size,
          );
        };
        atomic = inr view;
        durable = λ p.
            let enough : headed.n < headed.power =
              omega (arith, e.n, v.power, (write_head-WritesBlock before).power) in
            let c = f.cleared enough in
            (
              ap (λ k. header_n (u.disk k)) (sym e.start) ∙ c.0,
              λ b hb.
                  c.1 b (home b hb)
                  ∙ ap (λ k. committed k headed.disk b) e.start
                  ∙ headed-committed h b hb,
            );
      }

  commit-finish : 0 < s.n → commit s ≡ finish headed
  unfolding commit
  commit-finish h = ground arith

  commit-empty : s.n ≡ 0 → commit s ≡ s
  unfolding commit
  commit-empty h = ground arith

  empty-Committed : s.n ≡ 0 → Committed s s
  empty-Committed e = record {
    sound = cleared-IsSound s.start s.size s.disk q.clear (omega (arith, q.listed.room));
    atomic = inl (λ b hb. cleared-committed s.start s.disk b q.clear);
    durable = λ h. (
      q.clear,
      λ b hb. ap (λ k. replay s.block (λ i. contents s (s.block i)) s.disk k b) (sym e),
    );
  }

  commit-Committed : Committed s (commit s)
  commit-Committed = elim (dec_lt 0 s.n) [
    | yes some_listed ↦ rw (commit-finish some_listed) (elim (dec_lt 0 before.power) [
      | yes h ↦ kept-Committed h
      | no h ↦ lost-Committed (omega arith)
    ])
    | no none_listed ↦ rw (commit-empty (omega arith)) (empty-Committed (omega arith))
  ]

-- Wherever `commit` loses power, and however often the recovery that follows does: after a boot
-- that has power enough, either every block outside the log is as it was before the commit, or
-- every one is as the group of operations wants it; and the header is clear.
pub commit_crash_recover :
    {s : Log} (power : ℕ) (ps : List ℕ)
    → Pending s
    → s.size ≤ power
    → let u = (initlog s.start s.size power (reboots s.start s.size ps (commit s).disk)).disk in
      (header_n (u s.start) ≡ 0)
      × (((b : ℕ) → IsHome s.start s.size b → u b ≡ s.disk b)
          ⊎ ((b : ℕ) → IsHome s.start s.size b → u b ≡ intended s b))
commit_crash_recover {s} power ps q h =
    let c = commit-Committed q in
    let r = recovery_restarts s.start s.size power ps (commit s).disk c.sound h in
    (
      r.0,
      elim c.atomic [
        | inl old ↦ inl (λ b hb. r.1 b hb ∙ old b hb)
        | inr new ↦ inr (λ b hb. r.1 b hb ∙ new b hb)
      ],
    )

-- With power for its 2 n + 2 writes `commit` puts every block where the group wants it, and clears
-- the header.
pub commit_durable :
    {s : Log}
    → Pending s
    → 2 * s.n + 1 < s.power
    → (header_n ((commit s).disk s.start) ≡ 0)
      × ((b : ℕ) → IsHome s.start s.size b → (commit s).disk b ≡ intended s b)
commit_durable q h = (commit-Committed q).durable h
