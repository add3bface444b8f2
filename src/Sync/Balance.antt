-- ===== src/Sync/Balance.antt =====
-- What one access of a thread to a `SharedSpinMutex` (include/sync.h) changes of the flag and the count.
use turbokit.Base.{ℕ, ◌+◌, ◌≤◌, ◌≡◌, Bool, true, false, arith}
use turbokit.Sync.Threads.{bit}
use turbokit.Sync.SharedSpinMutex.{
  Mutex, mutex, Place, idle, lock_load, lock_exchange, lock_wait, exclusive, try_load, try_count,
  try_exchange, try_recount, try_restore, share_load, share_add, share_check, share_subtract,
  shared, try_share_load, try_share_add, try_share_check, try_share_subtract, advance,
}

-- The thread has set the flag.
abbrev pub owns : Place → Bool
owns lock_wait = true
owns exclusive = true
owns try_recount = true
owns try_restore = true
owns _ = false

-- The thread has added itself to the count.
abbrev pub counted : Place → Bool
counted share_check = true
counted share_subtract = true
counted shared = true
counted try_share_check = true
counted try_share_subtract = true
counted _ = false

-- How one access changes what the thread is counted for.
pub record Balance (p : Place) (m : Mutex) (p' : Place) (m' : Mutex) : Type 0 where
  pub flag : bit m'.is_locked + bit (owns p) ≡ bit m.is_locked + bit (owns p')
  pub readers : m'.shared_count + bit (counted p) ≡ m.shared_count + bit (counted p')
  pub enters : p' ≡ exclusive → m.shared_count ≡ 0
  pub shares : p' ≡ shared → m.is_locked ≡ false

pub advance-Balance :
    (p : Place) (l : Bool) (c : ℕ)
    → (owns p ≡ true → l ≡ true)
    → (counted p ≡ true → 1 ≤ c)
    → Balance p (mutex l c) (advance p (mutex l c)).0 (advance p (mutex l c)).1
unfolding advance
advance-Balance idle l c o r = record {
  flag = ground arith;
  readers = ground arith;
  enters = λ e. ground arith;
  shares = λ e. ground arith;
}
advance-Balance lock_load l c o r = record {
  flag = ground arith;
  readers = ground arith;
  enters = λ e. ground arith;
  shares = λ e. ground arith;
}
advance-Balance lock_exchange l c o r = record {
  flag = ground arith;
  readers = ground arith;
  enters = λ e. ground arith;
  shares = λ e. ground arith;
}
advance-Balance lock_wait l c o r = record {
  flag = ground arith;
  readers = ground arith;
  enters = λ e. ground arith;
  shares = λ e. ground arith;
}
advance-Balance exclusive l c o r = record {
  flag = ground arith;
  readers = ground arith;
  enters = λ e. ground arith;
  shares = λ e. ground arith;
}
advance-Balance try_load l c o r = record {
  flag = ground arith;
  readers = ground arith;
  enters = λ e. ground arith;
  shares = λ e. ground arith;
}
advance-Balance try_count l c o r = record {
  flag = ground arith;
  readers = ground arith;
  enters = λ e. ground arith;
  shares = λ e. ground arith;
}
advance-Balance try_exchange l c o r = record {
  flag = ground arith;
  readers = ground arith;
  enters = λ e. ground arith;
  shares = λ e. ground arith;
}
advance-Balance try_recount l c o r = record {
  flag = ground arith;
  readers = ground arith;
  enters = λ e. ground arith;
  shares = λ e. ground arith;
}
advance-Balance try_restore l c o r = record {
  flag = ground arith;
  readers = ground arith;
  enters = λ e. ground arith;
  shares = λ e. ground arith;
}
advance-Balance share_load l c o r = record {
  flag = ground arith;
  readers = ground arith;
  enters = λ e. ground arith;
  shares = λ e. ground arith;
}
advance-Balance share_add l c o r = record {
  flag = ground arith;
  readers = ground arith;
  enters = λ e. ground arith;
  shares = λ e. ground arith;
}
advance-Balance share_check l c o r = record {
  flag = ground arith;
  readers = ground arith;
  enters = λ e. ground arith;
  shares = λ e. ground arith;
}
advance-Balance share_subtract l c o r = record {
  flag = ground arith;
  readers = ground arith;
  enters = λ e. ground arith;
  shares = λ e. ground arith;
}
advance-Balance shared l c o r = record {
  flag = ground arith;
  readers = ground arith;
  enters = λ e. ground arith;
  shares = λ e. ground arith;
}
advance-Balance try_share_load l c o r = record {
  flag = ground arith;
  readers = ground arith;
  enters = λ e. ground arith;
  shares = λ e. ground arith;
}
advance-Balance try_share_add l c o r = record {
  flag = ground arith;
  readers = ground arith;
  enters = λ e. ground arith;
  shares = λ e. ground arith;
}
advance-Balance try_share_check l c o r = record {
  flag = ground arith;
  readers = ground arith;
  enters = λ e. ground arith;
  shares = λ e. ground arith;
}
advance-Balance try_share_subtract l c o r = record {
  flag = ground arith;
  readers = ground arith;
  enters = λ e. ground arith;
  shares = λ e. ground arith;
}
