-- ===== src/Clock/Safe.antt =====
-- The state in which include/clock.h may convert cycles to time, and the times that it gives.
use turbokit.Base.{
  ℕ, ◌+◌, ◌-◌, ◌*◌, ◌/◌, ◌%◌, ◌^◌, ◌<◌, ◌≤◌, min, max, ◌≡◌, refl, ap, ◌∙◌, Bool-cases, inl, inr,
  true, false, ◌&&◌, some, ◌==◌, ltb, leb, if◌then◌else◌, if_true, if_false, arith,
}
use native.Mathlib.Nat.{div-le_of_le-mul, mod-eq_of_lt}
use turbokit.Clock.{
  Clock, new, calibration_interval, reset_interval, int64_max, ◌>>=◌, pack, convert, calibrate,
  perform_calibration, elapsed, get_current_time,
}

-- The threshold is at most what the factor makes of the reset interval, and its product with 65536 fits.
pub record IsSafe (c : Clock) : Type 0 where
  pub within : c.cycle_threshold * 65536 ≤ c.cycle_conversion_factor * reset_interval
  pub fits : c.cycle_threshold * 65536 ≤ int64_max

pub new-IsSafe : IsSafe new
new-IsSafe = record { within = omega arith; fits = omega arith }

-- The cycles counted since the last calibration are at most `2 ^ 20` in a nanosecond.
abbrev pub IsSlow : (now cycles : ℕ) → Clock → Type 0
IsSlow now cycles c = cycles - c.last_calibration_cycles ≤ 2 ^ 20 * (now - c.last_calibration_time)

rate_small : (n t : ℕ) → n ≤ 2 ^ 20 * t → n * 2 ^ 16 % 2 ^ 64 / t * reset_interval ≤ int64_max
rate_small n t h =
    let r : n * 2 ^ 16 % 2 ^ 64 / t ≤ 2 ^ 36 = div-le_of_le-mul t (omega (arith, h)) in
    omega (arith, r)

convert-IsSafe :
    (n t : ℕ) (c : Clock) → n ≤ 2 ^ 20 * t → (w : Clock) × (convert n t c ≡ some w) × IsSafe w
unfolding convert
convert-IsSafe n t c h = elim (Bool-cases (n * 2 ^ 16 % 2 ^ 64 / 2 ^ 16 == n)) [
  | inl whole ↦
      let small : leb (n * 2 ^ 16 % 2 ^ 64 / t * reset_interval) int64_max ≡ true =
        ground (arith, rate_small n t h) in
      (
        record c {
          cycle_conversion_factor = n * 2 ^ 16 % 2 ^ 64 / t;
          cycle_threshold =
              min (n * 2 ^ 16 % 2 ^ 64 / t * reset_interval / 65536) (int64_max / 65536);
        },
        rw (whole, small) refl,
        record { within = omega arith; fits = omega arith },
      )
  | inr wide ↦ (
    record c { cycle_threshold = 0 },
    rw wide refl,
    record { within = omega arith; fits = omega arith },
  )
]

calibrate-IsSafe :
    (now cycles : ℕ) (c : Clock)
    → IsSlow now cycles c
    → IsSafe c
    → (w : Clock) × (calibrate now cycles c ≡ some w) × IsSafe w
unfolding calibrate
calibrate-IsSafe now cycles c slow h =
    elim (Bool-cases (
      leb (if c.cycle_threshold == 0 then calibration_interval / 10 else calibration_interval)
        (now - c.last_calibration_time))) [
          | inr early ↦ (c, if_false _ early, h)
          | inl due ↦
              let w : Clock = record c {
                last_calibration_time = now;
                last_calibration_cycles = cycles;
              } in
              let same : IsSafe w = record { within = h.within; fits = h.fits } in
              elim (Bool-cases (c.last_calibration_cycles == 0)) [
                | inl first ↦ (w, if_true _ due ∙ if_true _ first, same)
                | inr later ↦
                    elim (Bool-cases (
                      ltb 0 (cycles - c.last_calibration_cycles)
                      && ltb 0 (now - c.last_calibration_time))) [
                        | inl both ↦
                            let (x, ran, s) =
                              convert-IsSafe (cycles - c.last_calibration_cycles)
                                (now - c.last_calibration_time) w slow in
                            (x, if_true _ due ∙ if_false _ later ∙ if_true _ both ∙ ran, s)
                        | inr back ↦ (w, if_true _ due ∙ if_false _ later ∙ if_false _ back, same)
                      ]
              ]
        ]

perform_calibration-IsSafe :
    (now cycles : ℕ) (c : Clock)
    → IsSlow now cycles c
    → IsSafe c
    → (w : Clock) × (perform_calibration now cycles c ≡ some (now, w)) × IsSafe w
unfolding perform_calibration
perform_calibration-IsSafe now cycles c slow h = elim (Bool-cases c.synchronization_lock) [
  | inl busy ↦ (c, if_true _ busy, h)
  | inr free ↦
      let d : Clock = record c {
        synchronization_lock = true;
        previous_measurements = pack now cycles;
      } in
      let (w, ran, s) =
        calibrate-IsSafe now cycles d slow (record { within = h.within; fits = h.fits }) in
      (
        record w { synchronization_lock = false },
        if_false _ free
            ∙ ap (λ o. o >>= λ w'. some (now, record w' { synchronization_lock = false })) ran,
        record { within = s.within; fits = s.fits },
      )
]

-- From a safe clock, and the new clock is safe, `get_current_time` never divides by 0 and no signed
-- product of it overflows, whatever the time and the cycles are, up to `2 ^ 20` cycles in a nanosecond
-- since the last calibration; it leaves a safe clock.
pub get_current_time-IsSafe :
    (now cycles : ℕ) (c : Clock)
    → IsSlow now cycles c
    → IsSafe c
    → (t : ℕ) × (w : Clock) × (get_current_time now cycles c ≡ some (t, w)) × IsSafe w
unfolding get_current_time
get_current_time-IsSafe now cycles c slow h =
    elim (Bool-cases (ltb 0 c.cycle_threshold && ltb (elapsed cycles c) c.cycle_threshold)) [
      | inl fast ↦ (
        _,
        c,
        if_true _ fast
            ∙ if_false {b = c.cycle_conversion_factor == 0} _ (ground (arith, h.within, fast)),
        h,
      )
      | inr slow_path ↦
          let (w, ran, s) = perform_calibration-IsSafe now cycles c slow h in
          (now, w, if_false _ slow_path ∙ ran, s)
    ]

-- From a safe clock with a threshold, so many cycles after the last measurement that the threshold is
-- not reached, the time is the measured one and what the factor makes of the cycles, 1 at least: no
-- product wraps, the time is at most the reset interval after the measured one, and the clock stays.
pub get_current_time-bounds :
    (now cycles : ℕ) (c : Clock)
    → IsSafe c
    → 0 < c.cycle_threshold
    → elapsed cycles c < c.cycle_threshold
    → (t : ℕ) × (get_current_time now cycles c ≡ some (t, c))
      × (t
          ≡ c.previous_measurements / 2 ^ 64
            + max (elapsed cycles c) 1 * 65536 / c.cycle_conversion_factor)
      × (t ≤ c.previous_measurements / 2 ^ 64 + reset_interval)
unfolding get_current_time
get_current_time-bounds now cycles c h some_ below =
    let fast : (ltb 0 c.cycle_threshold && ltb (elapsed cycles c) c.cycle_threshold) ≡ true =
      ground (arith, some_, below) in
    let factor : 0 < c.cycle_conversion_factor = omega (arith, h.within) in
    let e = max (elapsed cycles c) 1 in
    let whole : e * 65536 % 2 ^ 64 ≡ e * 65536 = mod-eq_of_lt (omega (arith, h.fits)) in
    let small : e * 65536 / c.cycle_conversion_factor ≤ reset_interval =
      div-le_of_le-mul c.cycle_conversion_factor (omega (arith, h.within)) in
    (
      c.previous_measurements / 2 ^ 64 + e * 65536 / c.cycle_conversion_factor,
      if_true _ fast
          ∙ if_false {b = c.cycle_conversion_factor == 0} _ (ground (arith, factor))
          ∙ ap (λ p. some (c.previous_measurements / 2 ^ 64 + p / c.cycle_conversion_factor, c))
              whole,
      refl,
      omega (arith, small),
    )
