-- ===== src/Tests/Threads.antt =====
-- Concrete runs of the mutexes of include/sync.h by two threads.
use turbokit.Base.{ℕ, ◌≡◌, ◌≢◌, ◌<◌, ◌==◌, Bool, Bool-cases, inl, inr, refl, true, false, arith}
use turbokit.Sync.Balance.{owns, counted}
use turbokit.Sync.Threads.{update}
use turbokit.Sync.SharedSpinMutex
use turbokit.Sync.SharedSpinMutex.{
  mutex, idle, exclusive, shared, lock_load, lock_exchange, lock_wait, share_load, try_load,
  try_share_load, advance, accesses, Reachable, System, system,
}
use turbokit.Sync.SpinMutex
use turbokit.Sync.Exclusion.{exclusive_unique, exclusive-shared}
use turbokit.Sync.SpinMutex.{lock-exclusive}
use turbokit.Sync.Alone.{lock-alone}

-- Thread 0 has the lock, and thread 1 spins on a share.
abbrev places : ℕ → SharedSpinMutex.Place
places =
    update
      (update (update (update (update (λ i. idle) 0 lock_load) 0 lock_exchange) 0 lock_wait) 0
        exclusive)
      1 share_load

abbrev held : System
held = system (mutex true 0) places

-- Thread 0 has the lock, and no other thread has begun a call.
abbrev taken : ℕ → SharedSpinMutex.Place
taken =
    update (update (update (update (λ i. idle) 0 lock_load) 0 lock_exchange) 0 lock_wait) 0
      exclusive

taken-Reachable : Reachable 2 (system (mutex true 0) taken)
unfolding advance
taken-Reachable =
    SharedSpinMutex.next
      (SharedSpinMutex.next
        (SharedSpinMutex.next
          (SharedSpinMutex.next SharedSpinMutex.constructed (
            SharedSpinMutex.call (mutex false 0) (λ i. idle) 0 lock_load (omega arith) refl
              SharedSpinMutex.lock))
          (SharedSpinMutex.access (mutex false 0) _ 0 (omega arith)))
        (SharedSpinMutex.access (mutex false 0) _ 0 (omega arith)))
      (SharedSpinMutex.access (mutex true 0) _ 0 (omega arith))

held-Reachable : Reachable 2 held
held-Reachable = SharedSpinMutex.next taken-Reachable (
    SharedSpinMutex.call (mutex true 0) taken 1 share_load (omega arith) refl
      SharedSpinMutex.lock_shared)

released-Reachable : Reachable 2 (system (mutex false 0) (update taken 0 idle))
unfolding advance
released-Reachable =
    SharedSpinMutex.next taken-Reachable
      (SharedSpinMutex.access (mutex true 0) taken 0 (omega arith))

exclusive_unique_example : ◌≡◌ {A = ℕ} 0 0
exclusive_unique_example =
    exclusive_unique 2 held 0 0 held-Reachable (omega arith) (omega arith) refl refl

exclusive-shared_example : share_load ≢ shared
exclusive-shared_example =
    exclusive-shared 2 held 0 1 held-Reachable (omega arith) (omega arith) refl

-- Thread 0 has given the lock back, and thread 1 calls `lock`.
abbrev waiting : ℕ → SharedSpinMutex.Place
waiting = update (update taken 0 idle) 1 lock_load

waiting-Reachable : Reachable 2 (system (mutex false 0) waiting)
waiting-Reachable = SharedSpinMutex.next released-Reachable (
    SharedSpinMutex.call (mutex false 0) (update taken 0 idle) 1 lock_load (omega arith) refl
      SharedSpinMutex.lock)

-- Only the threads 0 and 1 have ever made a call.
outside :
    (at : SharedSpinMutex.Place → Bool)
    → at idle ≡ false
    → at lock_load ≡ false
    → (j : ℕ) → j < 2
    → at (waiting j) ≡ false
outside at h h' j l = elim (Bool-cases (j == 1)) [
  | inl one ↦ rw one h'
  | inr other ↦ let first : (j == 0) ≡ true = ground arith in rw (other, first) h
]

lock-alone_example :
    (accesses 3 lock_load (mutex false 0) ≡ (exclusive, mutex true 0))
    × (accesses 4 lock_load (mutex false 0) ≡ (idle, mutex false 0))
lock-alone_example =
    lock-alone 2 (system (mutex false 0) waiting) 1 waiting-Reachable refl (outside owns refl refl)
      (outside counted refl refl)

-- Thread 0 has a `SpinMutex`, and thread 1 is about to try its exchange.
abbrev spinning : SpinMutex.System
spinning = SpinMutex.system true (
    update
      (update
        (update (update (update (λ i. SpinMutex.idle) 0 SpinMutex.lock_load) 1 SpinMutex.lock_load)
          1 SpinMutex.lock_exchange)
        0 SpinMutex.lock_exchange)
      0 SpinMutex.holding)

spinning-Reachable : SpinMutex.Reachable 2 spinning
unfolding SpinMutex.advance
spinning-Reachable =
    SpinMutex.next
      (SpinMutex.next
        (SpinMutex.next
          (SpinMutex.next
            (SpinMutex.next SpinMutex.constructed (
              SpinMutex.call false (λ i. SpinMutex.idle) 0 SpinMutex.lock_load (omega arith) refl
                SpinMutex.lock))
            (SpinMutex.call false _ 1 SpinMutex.lock_load (omega arith) refl SpinMutex.lock))
          (SpinMutex.access false _ 1 (omega arith)))
        (SpinMutex.access false _ 0 (omega arith)))
      (SpinMutex.access false _ 0 (omega arith))

lock-exclusive_example : (◌≡◌ {A = ℕ} 0 0) × (true ≡ true)
lock-exclusive_example =
    lock-exclusive 2 spinning 0 0 spinning-Reachable (omega arith) (omega arith) refl refl
