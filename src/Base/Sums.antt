-- ===== src/Base/Sums.antt =====
-- Sums over the first natural numbers, and how often a number stands in a list.
use Prim.Native.Nat.{ℕ, zero, suc, ◌+◌, ◌≤◌, ◌<◌}
use mathlib.Core.Path.{◌≡◌, refl}
use mathlib.Core.Bool.{true, false}
use mathlib.Core.List.{List, [], ◌∷◌, ◌++◌}
use mathlib.Core.Logic.{◌≢◌}
use native.Mathlib.Omega.{arith}
use native.Mathlib.Decide.{dec_lt}
use turbokit.Base.Tests.{◌==◌, if◌then◌else◌, update}

abbrev pub sum : ℕ → (ℕ → ℕ) → ℕ
sum zero f = 0
sum (suc n) f = sum n f + f n

abbrev pub occurrences : ℕ → List ℕ → ℕ
occurrences x [] = 0
occurrences x (y ∷ ys) = (if y == x then 1 else 0) + occurrences x ys

pub occurrences-append :
    (x : ℕ) (ys zs : List ℕ) → occurrences x (ys ++ zs) ≡ occurrences x ys + occurrences x zs
occurrences-append x [] zs = omega arith
occurrences-append x (y ∷ ys) zs = omega (arith, occurrences-append x ys zs)

pub sum_eq : (n : ℕ) (f g : ℕ → ℕ) → ((i : ℕ) → i < n → f i ≡ g i) → sum n f ≡ sum n g
sum_eq zero f g h = refl
sum_eq (suc n) f g h = omega (arith, h n (omega arith), sum_eq n f g (λ i lt. h i (omega arith)))

-- Two functions that agree but at `t`.
pub sum-change :
    (n t : ℕ) (f g : ℕ → ℕ)
    → t < n
    → ((i : ℕ) → i < n → i ≢ t → f i ≡ g i)
    → sum n f + g t ≡ sum n g + f t
sum-change zero t f g lt h = absurd (omega arith)
sum-change (suc n) t f g lt h = elim (dec_lt t n) [
  | yes below ↦ omega (
    arith,
    sum-change n t f g below (λ i li ne. h i (omega arith) ne),
    h n (omega arith) (omega arith),
  )
  | no top ↦
      let e : t ≡ n = omega arith in
      rw e (omega (arith, sum_eq n f g (λ i li. h i (omega arith) (omega arith))))
]

pub sum_le : (n t : ℕ) (f : ℕ → ℕ) → t < n → f t ≤ sum n f
sum_le zero t f lt = absurd (omega arith)
sum_le (suc n) t f lt = elim (dec_lt t n) [
  | yes below ↦ omega (arith, sum_le n t f below)
  | no top ↦ let e : t ≡ n = omega arith in rw e (omega arith)
]

-- Two of the summands.
pub sum_le_two : (n t u : ℕ) (f : ℕ → ℕ) → t < n → u < n → t ≢ u → f t + f u ≤ sum n f
sum_le_two zero t u f lt lu ne = absurd (omega arith)
sum_le_two (suc n) t u f lt lu ne = elim (dec_lt t n) [
  | yes tb ↦ elim (dec_lt u n) [
    | yes ub ↦ omega (arith, sum_le_two n t u f tb ub ne)
    | no ut ↦ let e : u ≡ n = omega arith in rw e (omega (arith, sum_le n t f tb))
  ]
  | no tt' ↦ let e : t ≡ n = omega arith in rw e (omega (arith, sum_le n u f (omega arith)))
]

pub update_self {ℓ} : {A : Type ℓ} (f : ℕ → A) (i : ℕ) (a : A) → update f i a i ≡ a
update_self f i a = let e : (i == i) ≡ true = ground arith in rw e refl

pub update_other {ℓ} :
    {A : Type ℓ} (f : ℕ → A) (i : ℕ) (a : A) (j : ℕ) → j ≢ i → update f i a j ≡ f j
update_other f i a j h = let e : (j == i) ≡ false = ground arith in rw e refl
