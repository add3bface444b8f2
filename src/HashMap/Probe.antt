-- ===== src/HashMap/Probe.antt =====
-- The search for a vacant collision slot in `try_insert` (include/hash_map.h).
use turbokit.Base.{
  ℕ, zero, suc, ◌+◌, ◌-◌, ◌%◌, ◌<◌, ◌≤◌, ◌≡◌, ◌≢◌, none, some, arith, Option-cases, Bool-cases,
  ◌==◌, inl, inr, ◌∙◌, sym, ap,
}
use native.Mathlib.Nat.{mod-add-mod}
use turbokit.HashMap.Types.{HashMap, masked}
use turbokit.HashMap.Insert.{probe}
use turbokit.HashMap.Slots.{
  IsPowerOfTwo, slot, distance, masked-mod, masked-slot, slot-lt, slot-distance,
}

module _ {K V : Type 0} (m : HashMap K V) (p : IsPowerOfTwo m.bucket_count) (b : ℕ) where
  -- The slot at distance `d`, however often the distance goes round.
  abbrev pub round : ℕ → ℕ
  round d = (b + d) % m.bucket_count

  -- The first vacant slot at distance `d` or more is at distance `reached`.
  pub record Vacant (d reached : ℕ) : Type 0 where
    pub onward : d ≤ reached
    pub vacant : m.collision_table (round reached) ≡ none
    pub passed : (y : ℕ) → d ≤ y → y < reached → m.collision_table (round y) ≢ none

  round-suc : (d : ℕ) → masked m.bucket_count (round d + 1) ≡ round (d + 1)
  round-suc d =
      masked-mod p (round d + 1)
      ∙ mod-add-mod (b + d) m.bucket_count 1
      ∙ ap (λ x. x % m.bucket_count) (omega arith)

  pub probe-Vacant :
      (fuel d x : ℕ)
      → x < fuel
      → m.collision_table (round (d + x)) ≡ none
      → (reached : ℕ) × (probe m fuel (round d) (d + 1) ≡ some (round reached, reached + 1))
        × Vacant d reached
        × (reached ≤ d + x)
  unfolding probe
  probe-Vacant zero d x h free = absurd (omega arith)
  probe-Vacant (suc fuel) d x h free = elim (Option-cases (m.collision_table (round d))) [
    | inl e ↦ (
      d,
      rw (e, probe),
      record { onward = omega arith; vacant = e; passed = λ y l u. absurd (omega arith) },
      omega arith,
    )
    | inr (c, e) ↦
        let pos : x ≢ 0 = λ z. let same : d + x ≡ d = omega arith in cc in
        let shift : d + x ≡ d + 1 + (x - 1) = omega arith in
        let (reached, found, v, le) =
          probe-Vacant fuel (d + 1) (x - 1) (omega arith) (rw shift at free) in
        (
          reached,
          rw (e, probe, round-suc) found,
          record {
            onward = omega (arith, v.onward);
            vacant = v.vacant;
            passed = λ y l u. elim (Bool-cases (y == d)) [
              | inl s ↦ let same : y ≡ d = ground arith in λ q. cc
              | inr s ↦ v.passed y (ground arith) u
            ];
          },
          omega arith,
        )
  ]

  module _ (hb : b < m.bucket_count) where
    pub round-slot : (d : ℕ) → d < m.bucket_count → round d ≡ slot m.bucket_count b d
    round-slot d hd = sym (masked-mod p (b + d)) ∙ masked-slot m.bucket_count b d p hb hd

    -- Every slot is met on the way round.
    round-distance :
        (d j : ℕ)
        → d < m.bucket_count
        → j < m.bucket_count
        → round (d + distance m.bucket_count (slot m.bucket_count b d) j) ≡ j
    round-distance d j hd hj =
        let n = m.bucket_count in
        let s = slot n b d in
        let x = distance n s j in
        let hs = slot-lt n b d hb hd in
        let split : b + (d + x) ≡ b + d + x = omega arith in
        ap (λ y. y % n) split
        ∙ sym (mod-add-mod (b + d) n x)
        ∙ ap (λ y. (y + x) % n) (round-slot d hd)
        ∙ sym (masked-mod p (s + x))
        ∙ masked-slot n s x p hs (ground arith)
        ∙ slot-distance n s j hs hj

    -- With a vacant slot anywhere the probe ends at one.
    pub probe-slot :
        (d j : ℕ)
        → d < m.bucket_count
        → j < m.bucket_count
        → m.collision_table j ≡ none
        → (reached : ℕ) × (probe m m.bucket_count (slot m.bucket_count b d) (d + 1)
            ≡ some (round reached, reached + 1))
          × Vacant d reached
    probe-slot d j hd hj free =
        let s = slot m.bucket_count b d in
        let x = distance m.bucket_count s j in
        let hs = slot-lt m.bucket_count b d hb hd in
        let (reached, found, v, le) =
          probe-Vacant m.bucket_count d x (ground arith) (rw (round-distance d j hd hj) free) in
        (reached, rw (round-slot d hd) at found, v)
