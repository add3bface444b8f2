-- ===== src/Tests/Simple.antt =====
-- Concrete arrays for include/simple_vector.h, and clocks for include/clock.h.
use turbokit.Base.{
  inr, some, ◌⊎◌, inl, ℕ, ◌+◌, ◌*◌, ◌/◌, ◌^◌, ◌≤◌, max, ◌≡◌, refl, Bool, true, false, ltb, ◌==◌,
  if◌then◌else◌, arith,
}
use turbokit.Vector.Memory.{raw, live, Element}
use turbokit.SimpleVector.{limit, block, BasicArray, ok, threw, resize, new as new_array}
use turbokit.SimpleVector.Loops.{Holds}
use turbokit.SimpleVector.Growth.{resize-Holds}
use turbokit.Clock.{
  Clock, reset_interval, elapsed, pack, calibrate, convert, perform_calibration, get_current_time,
}
use turbokit.Clock.Safe.{IsSafe, get_current_time-IsSafe, get_current_time-bounds}
use turbokit.Clock.Measured.{get_current_time-calibrated}

abbrev bytes : Element
bytes = record { trivial = true; size = 1 }

abbrev strings : Element
strings = record { trivial = false; size = 32 }

-- 0, 10 and 20 in a memory of three.
abbrev three : BasicArray ℕ
three = record { elements = block (λ i. if ltb i 3 then live (i * 10) else raw) 3; count = 3 }

three-Holds : Holds three 3 (λ i. i * 10)
three-Holds = record {
  size = refl;
  contents = λ i h. ground arith;
  fits = omega arith;
  owned = refl;
}

new-Holds : Holds new_array 0 (λ i. i)
new-Holds = record {
  size = refl;
  contents = λ i h. absurd (omega arith);
  fits = omega arith;
  owned = refl;
}

-- Two cycles in a nanosecond, measured at the time 5000000000 and the cycle 9000000000.
abbrev running : Clock
running = record {
  cycle_threshold = 200000000;
  cycle_conversion_factor = 131072;
  previous_measurements = 5000000000 * 2 ^ 64 + 9000000000;
  last_calibration_time = 5000000000;
  last_calibration_cycles = 9000000000;
  synchronization_lock = false;
}

running-IsSafe : IsSafe running
running-IsSafe = record { within = omega arith; fits = omega arith }

get_current_time-IsSafe_example :
    (t : ℕ) × (w : Clock) × (get_current_time 6500000000 12000000000 running ≡ some (t, w))
    × IsSafe w
get_current_time-IsSafe_example =
    get_current_time-IsSafe 6500000000 12000000000 running (omega arith) running-IsSafe

get_current_time-bounds_example :
    (t : ℕ) × (get_current_time 5000000100 9000000200 running ≡ some (t, running))
    × (t
        ≡ running.previous_measurements / 2 ^ 64
          + max (elapsed 9000000200 running) 1 * 65536 / running.cycle_conversion_factor)
    × (t ≤ running.previous_measurements / 2 ^ 64 + reset_interval)
get_current_time-bounds_example =
    get_current_time-bounds 5000000100 9000000200 running running-IsSafe (omega arith) (omega arith)

abbrev recalibrated : Clock
recalibrated = record running {
  cycle_threshold = 200000000;
  cycle_conversion_factor = 131072;
  previous_measurements = pack 6500000000 12000000000;
  last_calibration_time = 6500000000;
  last_calibration_cycles = 12000000000;
}

recalibrated_run :
    perform_calibration 6500000000 12000000000 running ≡ some (6500000000, recalibrated)
unfolding perform_calibration calibrate convert pack
recalibrated_run = refl

get_current_time-calibrated_example :
    (t : ℕ) × (get_current_time 6500000400 12000000800 recalibrated ≡ some (t, recalibrated))
    × (6500000000 ≤ t)
    × (t ≤ 6500000000 + reset_interval)
get_current_time-calibrated_example =
    get_current_time-calibrated 6500000000 12000000000 6500000400 12000000800 running recalibrated
      refl (omega arith) recalibrated_run (record { within = omega arith; fits = omega arith })
      (omega arith) (omega arith)

-- The constructor of the fifth element throws.
abbrev fifth : ℕ → Bool
fifth i = i == 4

resize-Holds_example :
    (w : BasicArray ℕ) × (j : ℕ) × (resize bytes true fifth 7 6 three
      ≡ (if j == 6 then ok w else threw w))
    × (j ≤ 6)
    × ((6 ≤ 3) ⊎ (3 ≤ j))
    × (((i : ℕ) → fifth i ≡ false) → j ≡ 6)
    × (limit w.elements ≡ max 6 3)
    × Holds w j (λ i. if ltb i 3 then i * 10 else 7)
resize-Holds_example =
    resize-Holds bytes true fifth 7 three 3 (λ i. i * 10) 6 (inl refl) (inr refl) three-Holds
