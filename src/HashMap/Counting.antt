-- ===== src/HashMap/Counting.antt =====
-- Counting the entries in use (include/hash_map.h).
use turbokit.Base.{
  ℕ, zero, suc, ◌+◌, ◌<◌, ◌≤◌, ◌≡◌, Option, none, some, arith, Option-cases, inl, inr, dec_lt, refl,
}
use native.Mathlib.Numerals.{add-one}
use turbokit.HashMap.Types.{update}
use turbokit.HashMap.Invariant.{count_used}

module _ {ℓ} {A : Type ℓ} where
  count_used-update_beyond :
      (n : ℕ) (f : ℕ → Option A) (i : ℕ) (o : Option A)
      → n ≤ i
      → count_used n (update f i o) ≡ count_used n f
  unfolding count_used
  count_used-update_beyond zero f i o h = omega arith
  count_used-update_beyond (suc n) f i o h = ground (arith, count_used-update_beyond n f i o)

  abbrev pub used : Option A → ℕ
  used none = 0
  used (some a) = 1

  pub count_used-update :
      (n : ℕ) (f : ℕ → Option A) (i : ℕ) (o : Option A)
      → i < n
      → count_used n (update f i o) + used (f i) ≡ count_used n f + used o
  unfolding count_used
  count_used-update zero f i o h = absurd (omega arith)
  count_used-update (suc n) f i o h = elim (dec_lt i n) [
    | yes below ↦ ground (arith, count_used-update n f i o below)
    | no last ↦ ground (arith, count_used-update_beyond n f i o)
  ]

  pub count_used-le : (n : ℕ) (f : ℕ → Option A) → count_used n f ≤ n
  unfolding count_used
  count_used-le zero f = omega arith
  count_used-le (suc n) f = ground (arith, count_used-le n f)

  -- With fewer entries in use than there are, one is vacant.
  pub vacancy : (n : ℕ) (f : ℕ → Option A) → count_used n f < n → (i : ℕ) × (i < n) × (f i ≡ none)
  unfolding count_used
  vacancy zero f h = absurd (omega arith)
  vacancy (suc n) f h = elim (Option-cases (f n)) [
    | inl free ↦ (n, omega arith, free)
    | inr (a, e) ↦ let (i, lt, free) = vacancy n f (ground arith) in (i, omega arith, free)
  ]

  -- An entry in use is counted.
  pub count_used_pos :
      (n : ℕ) (f : ℕ → Option A) (i : ℕ) (a : A) → i < n → f i ≡ some a → 0 < count_used n f
  unfolding count_used
  count_used_pos zero f i a h e = absurd (omega arith)
  count_used_pos (suc n) f i a h e = elim (dec_lt i n) [
    | yes below ↦ ground (arith, count_used_pos n f i a below e)
    | no last ↦ let same : i ≡ n = omega arith in ground arith
  ]

pub count_used-none {ℓ} : (A : Type ℓ) (n : ℕ) → count_used {A = A} n (λ i. none) ≡ 0
unfolding count_used
count_used-none A zero = omega arith
count_used-none A (suc n) = omega (arith, count_used-none A n)

module _ {A : Type 0} where
  pub count_used_mono : (i n : ℕ) (f : ℕ → Option A) → i ≤ n → count_used i f ≤ count_used n f
  unfolding count_used
  count_used_mono i zero f h = let e : i ≡ 0 = omega arith in rw e (omega arith)
  count_used_mono i (suc n) f h = elim (dec_lt n i) [
    | yes top ↦ let e : i ≡ suc n = omega arith in rw e (omega arith)
    | no below ↦ omega (arith, count_used_mono i n f (omega arith))
  ]

  pub count_used-some :
      (i : ℕ) (f : ℕ → Option A) (a : A) → f i ≡ some a → count_used (i + 1) f ≡ count_used i f + 1
  unfolding count_used
  count_used-some i f a e = rw (add-one, e) refl

  pub count_used_skip :
      (i : ℕ) (f : ℕ → Option A) → f i ≡ none → count_used (i + 1) f ≡ count_used i f
  unfolding count_used
  count_used_skip i f e = rw (add-one, e) (omega arith)

  pub count_used-gap :
      (n : ℕ) (f : ℕ → Option A) → ((x : ℕ) → x < n → f x ≡ none) → count_used n f ≡ 0
  unfolding count_used
  count_used-gap zero f h = omega arith
  count_used-gap (suc n) f h = ground (arith, h n, count_used-gap n f (λ x l. h x (omega arith)))
