-- ===== src/Clock/Measured.antt =====
-- The time of include/clock.h after a measurement.
use turbokit.Base.{
  ℕ, ◌+◌, ◌-◌, ◌*◌, ◌/◌, ◌%◌, ◌^◌, ◌<◌, ◌≤◌, max, ◌≡◌, refl, sym, ap, ◌∙◌, Bool-cases, inl, inr,
  true, false, ◌&&◌, Option, none, some, ◌==◌, ltb, leb, if◌then◌else◌, if_true, if_false, ltb-true,
  arith,
}
use mathlib.Core.Path.{subst}
use native.Mathlib.Nat.{div-lt_iff_lt-mul, div-add-mod', mod-lt}
use turbokit.Clock.{
  Clock, calibration_interval, reset_interval, int64_max, ◌>>=◌, pack, convert, calibrate,
  perform_calibration, elapsed, get_current_time,
}
use turbokit.Clock.Safe.{IsSafe, get_current_time-bounds}

div_mono : (m n k : ℕ) → 0 < k → m ≤ n → m / k ≤ n / k
div_mono m n k pos le =
    let b : m / k < n / k + 1 =
      (div-lt_iff_lt-mul pos).1 (grind (arith, div-add-mod' n k, mod-lt n pos)) in
    omega (arith, b)

-- Within the threshold, more cycles never give an earlier time.
pub get_current_time_mono :
    (now now' cycles cycles' : ℕ) (c : Clock)
    → IsSafe c
    → 0 < c.cycle_threshold
    → cycles ≤ cycles'
    → elapsed cycles' c < c.cycle_threshold
    → (t t' : ℕ) × (get_current_time now cycles c ≡ some (t, c))
      × (get_current_time now' cycles' c ≡ some (t', c))
      × (t ≤ t')
get_current_time_mono now now' cycles cycles' c h some_ le below =
    let (t, ran, e, b) = get_current_time-bounds now cycles c h some_ (omega arith) in
    let (t', ran', e', b') = get_current_time-bounds now' cycles' c h some_ below in
    (
      t,
      t',
      ran,
      ran',
      omega (
        arith,
        e,
        e',
        div_mono (max (elapsed cycles c) 1 * 65536) (max (elapsed cycles' c) 1 * 65536)
            c.cycle_conversion_factor (omega (arith, h.within)) (omega (arith, le)),
      ),
    )

-- The measurement stays what it was through the rest of a calibration.
Keeps : ℕ → Option Clock → Type 0
Keeps m none = Unit
Keeps m (some w) = w.previous_measurements ≡ m

convert-Keeps : (n t : ℕ) (c : Clock) → Keeps c.previous_measurements (convert n t c)
unfolding Keeps convert
convert-Keeps n t c = elim (Bool-cases (n * 2 ^ 16 % 2 ^ 64 / 2 ^ 16 == n)) [
  | inl whole ↦ elim (Bool-cases (leb (n * 2 ^ 16 % 2 ^ 64 / t * reset_interval) int64_max)) [
    | inl small ↦ rw (whole, small) refl
    | inr large ↦ rw (whole, large) tt
  ]
  | inr wide ↦ rw wide refl
]

calibrate-Keeps :
    (now cycles : ℕ) (c : Clock) → Keeps c.previous_measurements (calibrate now cycles c)
unfolding Keeps calibrate
calibrate-Keeps now cycles c =
    let due =
      leb (if c.cycle_threshold == 0 then calibration_interval / 10 else calibration_interval)
        (now - c.last_calibration_time) in
    let forward =
      ltb 0 (cycles - c.last_calibration_cycles) && ltb 0 (now - c.last_calibration_time) in
    let w : Clock = record c { last_calibration_time = now; last_calibration_cycles = cycles } in
    elim (Bool-cases due) [
      | inr early ↦ rw early refl
      | inl late ↦ elim (Bool-cases (c.last_calibration_cycles == 0)) [
        | inl first ↦ rw (late, first) refl
        | inr later ↦ elim (Bool-cases forward) [
          | inl both ↦
              rw (late, later, both)
                (convert-Keeps (cycles - c.last_calibration_cycles) (now - c.last_calibration_time)
                  w)
          | inr back ↦ rw (late, later, back) refl
        ]
      ]
    ]

unpack-cycles : (time cycles : ℕ) → cycles < 2 ^ 63 → pack time cycles % 2 ^ 64 ≡ cycles
unfolding pack
unpack-cycles time cycles h =
    ap (λ p. p % 2 ^ 64) (if_true _ (ltb-true cycles (2 ^ 63) h)) ∙ omega (arith, h)

unpack-time : (time cycles : ℕ) → cycles < 2 ^ 63 → pack time cycles / 2 ^ 64 ≡ time
unfolding pack
unpack-time time cycles h =
    ap (λ p. p / 2 ^ 64) (if_true _ (ltb-true cycles (2 ^ 63) h)) ∙ omega (arith, h)

Measured : ℕ → Option (ℕ × Clock) → Type 0
Measured m none = Unit
Measured m (some p) = p.1.previous_measurements ≡ m

unlock-Measured :
    (now m : ℕ) (o : Option Clock)
    → Keeps m o
    → Measured m (o >>= λ w. some (now, record w { synchronization_lock = false }))
unfolding Keeps Measured
unlock-Measured now m none k = tt
unlock-Measured now m (some w) k = k

measured :
    (now cycles : ℕ) (c w : Clock)
    → c.synchronization_lock ≡ false
    → perform_calibration now cycles c ≡ some (now, w)
    → w.previous_measurements ≡ pack now cycles
unfolding perform_calibration Measured
measured now cycles c w free ran =
    let d : Clock = record c {
      synchronization_lock = true;
      previous_measurements = pack now cycles;
    } in
    subst (Measured (pack now cycles)) (sym (if_false _ free) ∙ ran) (
      unlock-Measured now (pack now cycles) (calibrate now cycles d) (calibrate-Keeps now cycles d))

-- With fewer than `2 ^ 63` cycles, a calibration by a thread that gets the lock is where the time
-- goes on from: as long as the threshold is not reached after it, no time is before the one that
-- the calibration gave, nor later than by the reset interval.
pub get_current_time-calibrated :
    (now cycles now' cycles' : ℕ) (c w : Clock)
    → c.synchronization_lock ≡ false
    → cycles < 2 ^ 63
    → perform_calibration now cycles c ≡ some (now, w)
    → IsSafe w
    → 0 < w.cycle_threshold
    → cycles' - cycles < w.cycle_threshold
    → (t : ℕ) × (get_current_time now' cycles' w ≡ some (t, w))
      × (now ≤ t)
      × (t ≤ now + reset_interval)
get_current_time-calibrated now cycles now' cycles' c w free small ran h some_ below =
    let m = measured now cycles c w free ran in
    let time : w.previous_measurements / 2 ^ 64 ≡ now =
      ap (λ p. p / 2 ^ 64) m ∙ unpack-time now cycles small in
    let since : elapsed cycles' w ≡ cycles' - cycles =
      ap (λ p. cycles' - p % 2 ^ 64) m ∙ ap (λ p. cycles' - p) (unpack-cycles now cycles small) in
    let (t, ran', e, b) = get_current_time-bounds now' cycles' w h some_ (omega (arith, since)) in
    (t, ran', omega (arith, e, time), omega (arith, b, time))
