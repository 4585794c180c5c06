-- ===== src/Sleeplock/Progress.antt =====
-- A process that waits for a sleep lock (sleeplock.c) may still get it.
use ducko_unix.Prelude.{
  ℕ, ◌==◌, ◌≡◌, ◌⊎◌, refl, sym, ◌∙◌, true, false, arith, Bool-cases, inl, inr, ap,
}
use ducko_unix.Sleeplock.{Sleeplock, entering, asleep, inside, acquiresleep, releasesleep}
use ducko_unix.Sleeplock.Order.{
  World, moved, released, take, leave, Reach, here, after, fresh, was, fresh-Inv, Reach_Inv,
}

-- A runnable process gets a free lock.
takes :
    (u w : World) (p : ℕ)
    → Reach u w
    → w.phase p ≡ entering
    → w.lock.locked ≡ false
    → (v : World) × Reach u v × (v.phase p ≡ inside)
unfolding acquiresleep
takes u w p r at free =
    let lk : Sleeplock = record { locked = true; pid = p } in
    let same : (p == p) ≡ true = ground arith in
    (
      moved p inside lk w,
      after u w (moved p inside lk w) r (take w p lk at (ground (arith, free))),
      rw same refl,
    )

-- A process that waits is runnable when the holder leaves.
released_wakes :
    (w : World) (h p : ℕ)
    → w.phase h ≡ inside
    → w.phase p ≡ entering ⊎ (w.phase p ≡ asleep)
    → (released h w).phase p ≡ entering
unfolding releasesleep
released_wakes w h p inn waits = elim (Bool-cases (h == p)) [
  | inl same ↦
      let at : h ≡ p = ground (arith, same) in
      let both : w.phase p ≡ inside = sym (ap w.phase at) ∙ inn in
      absurd (ground (arith, both, waits))
  | inr apart ↦ rw apart (elim waits [ inl e ↦ rw e refl | inr e ↦ rw e refl ])
]

released-free : (w : World) (h : ℕ) → (released h w).lock.locked ≡ false
unfolding releasesleep
released-free w h = refl

-- Nothing that happens to the lock shuts a process out: from every state that is reached, each
-- process that waits, asleep or not, gets the lock in some run that follows.
pub waiting-inside :
    (w : World) (p : ℕ)
    → Reach fresh w
    → w.phase p ≡ entering ⊎ (w.phase p ≡ asleep)
    → (v : World) × Reach w v × (v.phase p ≡ inside)
waiting-inside w p r waits =
    let inv = Reach_Inv fresh w r fresh-Inv in
    elim (Bool-cases w.lock.locked) [
      | inl locked ↦
          let h = w.lock.pid in
          let inn = inv.holder locked in
          takes w (released h w) p (after w w (released h w) (here w) (leave w h inn))
            (released_wakes w h p inn waits) (released-free w h)
      | inr free ↦ elim waits [
        | inl at ↦ takes w w p (here w) at free
        | inr sleeps ↦
            let locked = (was w p asleep inv sleeps).1 in absurd (ground (arith, locked, free))
      ]
    ]
