-- ===== src/HashMap/Grow.antt =====
-- The size that `reserve` chooses (include/hash_map.h).
use turbokit.Base.{
  ℕ, zero, suc, ◌+◌, ◌*◌, ◌%◌, ◌^◌, ◌<◌, ◌≤◌, ◌≡◌, refl, ◌⊎◌, inl, inr, arith, ltb, Bool-cases,
  two_pow_mono, lt_of_two_pow-lt,
}
use native.Mathlib.Nat.{pow-suc}
use turbokit.HashMap.Insert.{grow}

-- The least power of two from `2 ^ k` on that is `n` or more.
pub record Grown (n k r : ℕ) : Type 0 where
  pub log : ℕ
  pub size : r ≡ 2 ^ log
  pub from : k ≤ log
  pub enough : n ≤ 2 ^ log
  pub least : (log ≡ k) ⊎ (2 ^ log < 2 * n)

grow_fuel : (fuel n k : ℕ) → n ≤ 2 ^ 63 → 63 ≤ fuel + k → k ≤ 63 → Grown n k (grow fuel n (2 ^ k))
unfolding grow
grow_fuel zero n k hn h hk =
    let e : k ≡ 63 = omega arith in
    record { log = k; size = refl; from = omega arith; enough = rw e hn; least = inl refl }
grow_fuel (suc fuel) n k hn h hk = elim (Bool-cases (ltb (2 ^ k) n)) [
  | inr stop ↦
      rw stop (record {
        log = k;
        size = refl;
        from = omega arith;
        enough = ground arith;
        least = inl refl;
      })
  | inl more ↦
      let lt : 2 ^ k < n = ground arith in
      let room = lt_of_two_pow-lt k 63 (omega arith) in
      let double : 2 ^ k * 2 % 2 ^ 64 ≡ 2 ^ suc k =
        omega (arith, pow-suc 2 k, two_pow_mono k 62 (omega arith)) in
      let next = grow_fuel fuel n (suc k) hn (omega arith) (omega arith) in
      rw (more, double)
        (record {
          log = next.log;
          size = next.size;
          from = omega (arith, next.from);
          enough = next.enough;
          least = inr (elim next.least [ inl e ↦ rw e (omega (arith, pow-suc 2 k)) | inr l ↦ l ]);
        })
]

-- `reserve` doubles the bucket count until it is enough, and no further; 64 rounds are enough.
pub grow-Grown : (n k : ℕ) → n ≤ 2 ^ 63 → k ≤ 63 → Grown n k (grow 64 n (2 ^ k))
grow-Grown n k hn hk = grow_fuel 64 n k hn (omega arith) hk
