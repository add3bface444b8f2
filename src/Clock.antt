-- ===== src/Clock.antt =====
-- `Clock` of include/clock.h, called by one thread at a time. The steady clock and the time stamp
-- counter are arguments: the time `now` that the one would give, and the `cycles` of the other.
-- Both are taken to be from 0 on and below `2 ^ 63`, so that where a signed difference is negative
-- the one here is 0, which the code does not tell apart: it asks whether it is positive, below a
-- positive threshold, at least a positive interval, or less than 1.
pub mod Safe
pub mod Measured
use turbokit.Base.{
  ℕ, ◌+◌, ◌-◌, ◌*◌, ◌/◌, ◌%◌, ◌^◌, min, max, Bool, true, false, ◌&&◌, Option, none, some, ◌==◌, ltb,
  leb, if◌then◌else◌,
}

pub record Clock : Type 0 where
  pub cycle_threshold : ℕ
  pub cycle_conversion_factor : ℕ
  pub previous_measurements : ℕ
  pub last_calibration_time : ℕ
  pub last_calibration_cycles : ℕ
  pub synchronization_lock : Bool

abbrev pub new : Clock
new = record {
  cycle_threshold = 0;
  cycle_conversion_factor = 0;
  previous_measurements = 0;
  last_calibration_time = 0;
  last_calibration_cycles = 0;
  synchronization_lock = false;
}

abbrev pub calibration_interval : ℕ
calibration_interval = 1000000000

abbrev pub reset_interval : ℕ
reset_interval = 100000000

abbrev pub int64_max : ℕ
int64_max = 2 ^ 63 - 1

infixl 5 ◌>>=◌
abbrev pub ◌>>=◌ : {A B : Type 0} → Option A → (A → Option B) → Option B
none >>= f = none
some a >>= f = f a

-- A time and a count of cycles in 128 bits. A count from `2 ^ 63` on is a negative `int64_t`, whose sign
-- fills the upper half.
unfoldable pub pack : (time cycles : ℕ) → ℕ
pack time cycles =
    if ltb cycles (2 ^ 63) then time * 2 ^ 64 + cycles else (2 ^ 64 - 1) * 2 ^ 64 + cycles

-- The conversion factor of so many cycles in so long a time; `none` is a signed product that overflows.
unfoldable pub convert : (cycle_count time_count : ℕ) → Clock → Option Clock
convert cycle_count time_count c =
    let conversion_rate = cycle_count * 2 ^ 16 % 2 ^ 64 / time_count in
    if cycle_count * 2 ^ 16 % 2 ^ 64 / 2 ^ 16 == cycle_count
    then (if leb (conversion_rate * reset_interval) int64_max
        then some (record c {
          cycle_conversion_factor = conversion_rate;
          cycle_threshold = min (conversion_rate * reset_interval / 65536) (int64_max / 65536);
        })
        else none)
    else some (record c { cycle_threshold = 0 })

-- What `perform_calibration` does with the measurement, under the lock.
unfoldable pub calibrate : (now cycles : ℕ) → Clock → Option Clock
calibrate now cycles c =
    if leb (if c.cycle_threshold == 0 then calibration_interval / 10 else calibration_interval)
      (now - c.last_calibration_time)
    then (let w = record c { last_calibration_time = now; last_calibration_cycles = cycles } in
        if c.last_calibration_cycles == 0
        then some w
        else if ltb 0 (cycles - c.last_calibration_cycles) && ltb 0 (now - c.last_calibration_time)
        then convert (cycles - c.last_calibration_cycles) (now - c.last_calibration_time) w
        else some w)
    else some c

-- The time, and the clock after the call.
unfoldable pub perform_calibration : (now cycles : ℕ) → Clock → Option (ℕ × Clock)
perform_calibration now cycles c = if c.synchronization_lock then some (now, c) else (do
  w ←
      calibrate now cycles
        (record c { synchronization_lock = true; previous_measurements = pack now cycles })
  some (now, record w { synchronization_lock = false }))

-- The cycles since the last measurement.
abbrev pub elapsed : ℕ → Clock → ℕ
elapsed cycles c = cycles - c.previous_measurements % 2 ^ 64

-- `none` is a division by 0, too. Where one thread runs alone, the loop that reads the measurement
-- reads it once.
unfoldable pub get_current_time : (now cycles : ℕ) → Clock → Option (ℕ × Clock)
get_current_time now cycles c =
    if ltb 0 c.cycle_threshold && ltb (elapsed cycles c) c.cycle_threshold
    then (if c.cycle_conversion_factor == 0
        then none
        else some (
          c.previous_measurements / 2 ^ 64
              + max (elapsed cycles c) 1 * 65536 % 2 ^ 64 / c.cycle_conversion_factor,
          c,
        ))
    else perform_calibration now cycles c
