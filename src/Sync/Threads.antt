-- ===== src/Sync/Threads.antt =====
-- Counting the threads at a place of the code (include/sync.h).
use turbokit.Base.{ℕ, zero, suc, ◌+◌, ◌<◌, ◌≤◌, ◌≡◌, Bool, true, false, arith, ◌==◌, dec_lt, refl}
pub use turbokit.Base.{update}

abbrev pub bit : Bool → ℕ
bit true = 1
bit false = 0

bit-le : (b : Bool) → bit b ≤ 1
bit-le true = omega arith
bit-le false = omega arith

module _ {P : Type 0} where
  -- How many of the first `n` threads are at a place that `at` describes.
  unfoldable pub count : (n : ℕ) → (P → Bool) → (ℕ → P) → ℕ
  count zero at pc = 0
  count (suc n) at pc = count n at pc + bit (at (pc n))

  count-update_beyond :
      (n : ℕ) (at : P → Bool) (pc : ℕ → P) (i : ℕ) (p : P)
      → n ≤ i
      → count n at (update pc i p) ≡ count n at pc
  unfolding count
  count-update_beyond zero at pc i p h = omega arith
  count-update_beyond (suc n) at pc i p h =
      let other : (n == i) ≡ false = ground arith in
      rw (other, count-update_beyond n at pc i p (omega arith)) refl

  pub count-update :
      (n : ℕ) (at : P → Bool) (pc : ℕ → P) (i : ℕ) (p : P)
      → i < n
      → count n at (update pc i p) + bit (at (pc i)) ≡ count n at pc + bit (at p)
  unfolding count
  count-update zero at pc i p h = absurd (omega arith)
  count-update (suc n) at pc i p h = elim (dec_lt i n) [
    | yes below ↦
        let other : (n == i) ≡ false = ground arith in
        let rest = count-update n at pc i p below in rw other (omega arith)
    | no last ↦
        let same : i ≡ n = omega arith in
        let own : (n == n) ≡ true = ground arith in
        let rest = count-update_beyond n at pc n p (omega arith) in
        rw (same, own, rest) (omega arith)
  ]

  -- A thread at the place is counted, and two threads there are counted twice.
  pub count_one :
      (n : ℕ) (at : P → Bool) (pc : ℕ → P) (i : ℕ) → i < n → at (pc i) ≡ true → 1 ≤ count n at pc
  unfolding count
  count_one zero at pc i h a = absurd (omega arith)
  count_one (suc n) at pc i h a = elim (dec_lt i n) [
    | yes below ↦ omega (arith, count_one n at pc i below a)
    | no last ↦ let same : i ≡ n = omega arith in let b = rw same at a in rw b (omega arith)
  ]

  pub count_two :
      (n : ℕ) (at : P → Bool) (pc : ℕ → P) (i j : ℕ)
      → i < j
      → j < n
      → at (pc i) ≡ true
      → at (pc j) ≡ true
      → 2 ≤ count n at pc
  unfolding count
  count_two zero at pc i j h l a b = absurd (omega arith)
  count_two (suc n) at pc i j h l a b = elim (dec_lt j n) [
    | yes below ↦ omega (arith, count_two n at pc i j h below a b)
    | no last ↦
        let same : j ≡ n = omega arith in
        let c = rw same at b in let one = count_one n at pc i (omega arith) a in rw c (omega arith)
  ]

  pub count_none : (n : ℕ) (at : P → Bool) (p : P) → at p ≡ false → count n at (λ i. p) ≡ 0
  unfolding count
  count_none zero at p h = omega arith
  count_none (suc n) at p h = rw (count_none n at p h, h) (omega arith)

  pub count_zero :
      (n : ℕ) (at : P → Bool) (pc : ℕ → P)
      → ((i : ℕ) → i < n → at (pc i) ≡ false)
      → count n at pc ≡ 0
  unfolding count
  count_zero zero at pc h = omega arith
  count_zero (suc n) at pc h =
      rw (h n (omega arith)) (omega (arith, count_zero n at pc (λ i l. h i (omega arith))))

  pub count-le : (n : ℕ) (at : P → Bool) (pc : ℕ → P) → count n at pc ≤ n
  unfolding count
  count-le zero at pc = omega arith
  count-le (suc n) at pc = omega (arith, count-le n at pc, bit-le (at (pc n)))
