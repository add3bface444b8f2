-- ===== src/Sync/Exclusion.antt =====
-- The exclusion of readers and writers by `SharedSpinMutex` (include/sync.h).
use turbokit.Base.{
  ℕ, zero, suc, ◌<◌, ◌≤◌, ◌≡◌, ◌≢◌, refl, Bool, true, false, arith, ◌==◌, dec_lt, ap, Bool-cases,
  inl, inr,
}
use turbokit.Sync.Threads.{bit, update, count, count-update, count_one, count_two, count_none}
use turbokit.Sync.SharedSpinMutex.{
  Mutex, mutex, Place, idle, exclusive, shared, advance, Call, lock, try_lock, lock_shared,
  try_lock_shared, System, system, Step, call, access, Reachable, constructed, next,
}
use turbokit.Sync.Balance.{owns, counted, advance-Balance}

pub record Inv (n : ℕ) (s : System) : Type 0 where
  pub flag : count n owns s.pc ≡ bit s.state.is_locked
  pub readers : count n counted s.pc ≡ s.state.shared_count
  apart : (i j : ℕ) → i < n → j < n → s.pc i ≡ exclusive → s.pc j ≢ shared

bit-true : (l : Bool) → 1 ≤ bit l → l ≡ true
bit-true true h = refl
bit-true false h = absurd (omega arith)

bit-le : (l : Bool) → bit l ≤ 1
bit-le true = omega arith
bit-le false = omega arith

-- A place before the first access of a call is counted for nothing.
Call-outside :
    {p : Place} → Call p → (owns p ≡ false) × (counted p ≡ false) × (p ≢ exclusive) × (p ≢ shared)
Call-outside lock = (refl, refl, (λ e. cc), λ e. cc)
Call-outside try_lock = (refl, refl, (λ e. cc), λ e. cc)
Call-outside lock_shared = (refl, refl, (λ e. cc), λ e. cc)
Call-outside try_lock_shared = (refl, refl, (λ e. cc), λ e. cc)

-- The thread that moves does not bring a writer and a reader together.
apart_lem :
    (n : ℕ) (m : Mutex) (pc : ℕ → Place) (i : ℕ) (p : Place)
    → Inv n (system m pc)
    → (p ≡ exclusive → m.shared_count ≡ 0)
    → (p ≡ shared → m.is_locked ≡ false)
    → (x y : ℕ) → x < n
    → y < n
    → update pc i p x ≡ exclusive
    → update pc i p y ≢ shared
apart_lem n m pc i p inv enters shares x y hx hy ex sh = elim (Bool-cases (x == i)) [
  | inl own ↦ elim (Bool-cases (y == i)) [
    | inl both ↦ let a = rw own at ex in let b = rw both at sh in cc
    | inr other ↦
        let zero_count = enters (rw own at ex) in
        let there = count_one n counted pc y hy (ap counted (rw other at sh)) in
        absurd (omega (arith, inv.readers))
  ]
  | inr other ↦ elim (Bool-cases (y == i)) [
    | inl own ↦
        let free = shares (rw own at sh) in
        let there = count_one n owns pc x hx (ap owns (rw other at ex)) in
        let set = bit-true m.is_locked (omega (arith, inv.flag)) in cc
    | inr neither ↦ inv.apart x y hx hy (rw other at ex) (rw neither at sh)
  ]
]

Step-Inv : (n : ℕ) {s s' : System} → Step n s s' → Inv n s → Inv n s'
Step-Inv n (call m pc i p h e c) inv =
    let (no_owner, no_reader, not_exclusive, not_shared) = Call-outside c in
    let flags = count-update n owns pc i p h in
    let readers = count-update n counted pc i p h in
    record {
      flag = ground (arith, inv.flag);
      readers = ground (arith, inv.readers);
      apart = apart_lem n m pc i p inv (λ q. absurd (not_exclusive q)) (λ q. absurd (not_shared q));
    }
Step-Inv n (access m pc i h) inv =
    let b =
      advance-Balance (pc i) m.is_locked m.shared_count
        (λ o. bit-true m.is_locked (omega (arith, inv.flag, count_one n owns pc i h o)))
        (λ r. omega (arith, inv.readers, count_one n counted pc i h r)) in
    let p = (advance (pc i) m).0 in
    record {
      flag = omega (arith, inv.flag, b.flag, count-update n owns pc i p h);
      readers = omega (arith, inv.readers, b.readers, count-update n counted pc i p h);
      apart = apart_lem n m pc i p inv b.enters b.shares;
    }

pub Reachable-Inv : (n : ℕ) {s : System} → Reachable n s → Inv n s
Reachable-Inv n constructed = record {
  flag = count_none n owns idle refl;
  readers = count_none n counted idle refl;
  apart = λ i j hi hj e. cc;
}
Reachable-Inv n (next r t) = Step-Inv n t (Reachable-Inv n r)

-- In every reachable state of any number of threads, two threads that hold the lock exclusively are
-- the same one.
pub exclusive_unique :
    (n : ℕ) (s : System) (i j : ℕ)
    → Reachable n s
    → i < n
    → j < n
    → s.pc i ≡ exclusive
    → s.pc j ≡ exclusive
    → i ≡ j
exclusive_unique n s i j r hi hj a b =
    let inv = Reachable-Inv n r in
    let le = bit-le s.state.is_locked in
    elim (dec_lt i j) [
      | yes lt ↦
          absurd (omega (arith, inv.flag, count_two n owns s.pc i j lt hj (ap owns a) (ap owns b)))
      | no ge ↦ elim (dec_lt j i) [
        | yes lt ↦
            absurd
              (omega (arith, inv.flag, count_two n owns s.pc j i lt hi (ap owns b) (ap owns a)))
        | no le' ↦ omega arith
      ]
    ]

-- In every reachable state of any number of threads, no thread holds a share of the lock while one
-- holds it exclusively.
pub exclusive-shared :
    (n : ℕ) (s : System) (i j : ℕ)
    → Reachable n s
    → i < n
    → j < n
    → s.pc i ≡ exclusive
    → s.pc j ≢ shared
exclusive-shared n s i j r hi hj a = (Reachable-Inv n r).apart i j hi hj a

count_idle :
    (n : ℕ) (at : Place → Bool) (pc : ℕ → Place)
    → at idle ≡ false
    → ((i : ℕ) → i < n → pc i ≡ idle)
    → count n at pc ≡ 0
unfolding count
count_idle zero at pc h rest = omega arith
count_idle (suc n) at pc h rest =
    rw (count_idle n at pc h (λ i l. rest i (omega arith)), rest n (omega arith), h) (omega arith)

bit-false : (l : Bool) → bit l ≡ 0 → l ≡ false
bit-false true h = absurd (omega arith)
bit-false false h = refl

pub Mutex-eq : (m : Mutex) → bit m.is_locked ≡ 0 → m.shared_count ≡ 0 → m ≡ mutex false 0
Mutex-eq m l c = let free = bit-false m.is_locked l in λ i. mutex (free i) (c i)

-- In every reachable state in which all threads are idle, the mutex is as it was constructed,
-- whatever calls have failed or backed out before.
pub idle-constructed :
    (n : ℕ) (s : System)
    → Reachable n s
    → ((i : ℕ) → i < n → s.pc i ≡ idle)
    → s.state ≡ mutex false 0
idle-constructed n s r rest =
    let inv = Reachable-Inv n r in
    let flags = count_idle n owns s.pc refl rest in
    let readers = count_idle n counted s.pc refl rest in
    Mutex-eq s.state (omega (arith, inv.flag)) (omega (arith, inv.readers))
