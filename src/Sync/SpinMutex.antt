-- ===== src/Sync/SpinMutex.antt =====
-- `SpinMutex` (include/sync.h), and its mutual exclusion.
use turbokit.Base.{ℕ, ◌+◌, ◌<◌, ◌≤◌, ◌≡◌, refl, Bool, true, false, arith, if◌then◌else◌, dec_lt, ap}
use turbokit.Sync.Threads.{bit, update, count, count-update, count_one, count_two, count_none}

-- The accesses that a thread may be about to make; `holding` is outside all calls, with the lock.
pub data Place : Type 0 where
  idle : Place
  lock_load : Place
  lock_exchange : Place
  try_load : Place
  try_exchange : Place
  holding : Place

-- The next access of a thread, with the value of `is_locked`; a thread with the lock makes the one
-- of `unlock`.
unfoldable pub advance : Place → Bool → Place × Bool
advance idle l = (idle, l)
advance lock_load l = (if l then lock_load else lock_exchange, l)
advance lock_exchange l = (if l then lock_load else holding, true)
advance try_load l = (if l then idle else try_exchange, l)
advance try_exchange l = (if l then idle else holding, true)
advance holding l = (idle, false)

pub data Call : Place → Type 0 where
  lock : Call lock_load
  try_lock : Call try_load

pub record System : Type 0 where
  pub is_locked : Bool
  pub pc : ℕ → Place

abbrev pub system : Bool → (ℕ → Place) → System
system l pc = record { is_locked = l; pc = pc }

pub data Step (n : ℕ) : System → System → Type 0 where
  call :
      (l : Bool) (pc : ℕ → Place) (i : ℕ) (p : Place)
      → i < n
      → pc i ≡ idle
      → Call p
      → Step n (system l pc) (system l (update pc i p))
  access :
      (l : Bool) (pc : ℕ → Place) (i : ℕ)
      → i < n
      → Step n (system l pc) (system (advance (pc i) l).1 (update pc i (advance (pc i) l).0))

pub data Reachable (n : ℕ) : System → Type 0 where
  constructed : Reachable n (system false (λ i. idle))
  next : {s s' : System} → Reachable n s → Step n s s' → Reachable n s'

abbrev pub holds : Place → Bool
holds idle = false
holds lock_load = false
holds lock_exchange = false
holds try_load = false
holds try_exchange = false
holds holding = true

-- The flag is set exactly where one thread has the lock.
abbrev Counted : ℕ → System → Type 0
Counted n s = count n holds s.pc ≡ bit s.is_locked

advance-bit :
    (p : Place) (l : Bool)
    → (holds p ≡ true → l ≡ true)
    → bit (advance p l).1 + bit (holds p) ≡ bit l + bit (holds (advance p l).0)
unfolding advance
advance-bit idle l h = refl
advance-bit lock_load true h = refl
advance-bit lock_load false h = refl
advance-bit lock_exchange true h = refl
advance-bit lock_exchange false h = refl
advance-bit try_load true h = refl
advance-bit try_load false h = refl
advance-bit try_exchange true h = refl
advance-bit try_exchange false h = refl
advance-bit holding true h = refl
advance-bit holding false h = let e = h refl in cc

Call-holds : {p : Place} → Call p → holds p ≡ false
Call-holds lock = refl
Call-holds try_lock = refl

bit-true : (l : Bool) → 1 ≤ bit l → l ≡ true
bit-true true h = refl
bit-true false h = absurd (omega arith)

Step-Counted : (n : ℕ) {s s' : System} → Step n s s' → Counted n s → Counted n s'
Step-Counted n (call l pc i p h e c) inv =
    let moved = count-update n holds pc i p h in let out = Call-holds c in ground arith
Step-Counted n (access l pc i h) inv =
    let moved = count-update n holds pc i (advance (pc i) l).0 h in
    let balance =
      advance-bit (pc i) l (λ a. bit-true l (omega (arith, count_one n holds pc i h a))) in
    omega arith

Reachable-Counted : (n : ℕ) {s : System} → Reachable n s → Counted n s
Reachable-Counted n constructed = count_none n holds idle refl
Reachable-Counted n (next r t) = Step-Counted n t (Reachable-Counted n r)

bit-le : (l : Bool) → bit l ≤ 1
bit-le true = omega arith
bit-le false = omega arith

-- In every reachable state of any number of threads, two threads that hold the lock are the same
-- one, and the flag is set while a thread holds the lock.
pub lock-exclusive :
    (n : ℕ) (s : System) (i j : ℕ)
    → Reachable n s
    → i < n
    → j < n
    → s.pc i ≡ holding
    → s.pc j ≡ holding
    → (i ≡ j) × (s.is_locked ≡ true)
lock-exclusive n s i j r hi hj a b =
    let c = Reachable-Counted n r in
    let le = bit-le s.is_locked in
    let one = count_one n holds s.pc i hi (ap holds a) in
    (
      elim (dec_lt i j) [
        | yes lt ↦
            absurd (omega (arith, count_two n holds s.pc i j lt hj (ap holds a) (ap holds b)))
        | no ge ↦ elim (dec_lt j i) [
          | yes lt ↦
              absurd (omega (arith, count_two n holds s.pc j i lt hi (ap holds b) (ap holds a)))
          | no le' ↦ omega arith
        ]
      ],
      bit-true s.is_locked (omega arith),
    )
