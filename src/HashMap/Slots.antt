-- ===== src/HashMap/Slots.antt =====
-- Slots of the collision table by their distance from a bucket (include/hash_map.h). The mask wraps
-- the index round once, since the distance stays below the bucket count.
use turbokit.Base.{
  ℕ, ◌+◌, ◌-◌, ◌%◌, ◌^◌, ◌<◌, ◌≡◌, arith, ltb, if◌then◌else◌, dec_lt, and_mask, two_pow_pos, ◌∙◌,
}
use native.Mathlib.Nat.{mod-lt, mod-eq_of_lt, mod-eq-sub-mod}
use turbokit.HashMap.Types.{masked}

-- The bucket count is a power of two.
abbrev pub IsPowerOfTwo : ℕ → Type 0
IsPowerOfTwo n = (k : ℕ) × (n ≡ 2 ^ k)

pub IsPowerOfTwo-pos : {n : ℕ} → IsPowerOfTwo n → 0 < n
IsPowerOfTwo-pos (k, e) = rw e (two_pow_pos k)

-- The slot at distance `d` behind bucket `b`, of `n`.
abbrev pub slot : (n b d : ℕ) → ℕ
slot n b d = if ltb (b + d) n then b + d else b + d - n

-- The distance of slot `i` behind bucket `b`.
abbrev pub distance : (n b i : ℕ) → ℕ
distance n b i = if ltb i b then i + n - b else i - b

pub slot-lt : (n b d : ℕ) → b < n → d < n → slot n b d < n
slot-lt n b d hb hd = ground arith

pub slot-distance : (n b i : ℕ) → b < n → i < n → slot n b (distance n b i) ≡ i
slot-distance n b i hb hi = ground arith

pub distance-slot : (n b d : ℕ) → b < n → d < n → distance n b (slot n b d) ≡ d
distance-slot n b d hb hd = ground arith

pub masked-mod : {n : ℕ} → IsPowerOfTwo n → (x : ℕ) → masked n x ≡ x % n
unfolding masked
masked-mod (k, e) x = rw e (and_mask x k)

pub masked-lt : {n : ℕ} → IsPowerOfTwo n → (x : ℕ) → masked n x < n
masked-lt p x = rw (masked-mod p) (mod-lt x (IsPowerOfTwo-pos p))

pub masked-slot : (n b d : ℕ) → IsPowerOfTwo n → b < n → d < n → masked n (b + d) ≡ slot n b d
masked-slot n b d p hb hd = masked-mod p (b + d) ∙ elim (dec_lt (b + d) n) [
  | yes h ↦ ground (arith, mod-eq_of_lt h)
  | no h ↦ ground (
    arith,
    mod-eq-sub-mod {n = b + d} {m = n} (omega arith),
    mod-eq_of_lt {n = b + d - n} {m = n} (omega arith),
  )
]
