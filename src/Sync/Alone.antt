-- ===== src/Sync/Alone.antt =====
-- The calls of `SharedSpinMutex` (include/sync.h) that a thread makes while no other one runs.
use turbokit.Base.{
  ℕ, ◌+◌, ◌<◌, ◌≡◌, refl, Bool, true, false, not, ◌&&◌, arith, if◌then◌else◌, ◌==◌, Bool-cases, inl,
  inr,
}
use turbokit.Sync.Threads.{count_zero}
use turbokit.Sync.Balance.{owns, counted}
use turbokit.Sync.Exclusion.{Reachable-Inv, Mutex-eq}
use turbokit.Sync.SharedSpinMutex.{
  System, Reachable, mutex, idle, exclusive, try_load, shared, try_share_load, accesses, advance,
  lock_load,
}

-- A thread that runs alone finishes `try_lock` within four accesses, and `try_lock_shared` within
-- three: `try_lock` takes the lock where it is free and has no reader, `try_lock_shared` takes a
-- share where it is free, and otherwise each fails and leaves the mutex as it was.
pub try-alone :
    (l : Bool) (c : ℕ)
    → (accesses 4 try_load (mutex l c)
        ≡ (if not l && (c == 0) then (exclusive, mutex true c) else (idle, mutex l c)))
      × (accesses 3 try_share_load (mutex l c)
          ≡ (if l then (idle, mutex l c) else (shared, mutex l (c + 1))))
unfolding accesses advance
try-alone true c = (refl, refl)
try-alone false c =
    (elim (Bool-cases (c == 0)) [ inl z ↦ rw (z, z) refl | inr z ↦ rw z refl ], refl)

-- In every reachable state of any number of threads in which no thread has set the flag or counts
-- itself as a reader, a thread that has called `lock` and runs on alone holds the lock after three of
-- its accesses, and giving it back with one more leaves the mutex as it was before.
pub lock-alone :
    (n : ℕ) (s : System) (i : ℕ)
    → Reachable n s
    → s.pc i ≡ lock_load
    → ((j : ℕ) → j < n → owns (s.pc j) ≡ false)
    → ((j : ℕ) → j < n → counted (s.pc j) ≡ false)
    → (accesses 3 (s.pc i) s.state ≡ (exclusive, mutex true 0))
      × (accesses 4 (s.pc i) s.state ≡ (idle, s.state))
unfolding accesses advance
lock-alone n s i r at no_owner no_reader =
    let inv = Reachable-Inv n r in
    let flags = count_zero n owns s.pc no_owner in
    let readers = count_zero n counted s.pc no_reader in
    let free : s.state ≡ mutex false 0 =
      Mutex-eq s.state (omega (arith, inv.flag)) (omega (arith, inv.readers)) in
    (rw (at, free) refl, rw (at, free) refl)
