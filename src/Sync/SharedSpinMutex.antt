-- ===== src/Sync/SharedSpinMutex.antt =====
-- `SharedSpinMutex` (include/sync.h): where a thread stands, and what its next access does.
use turbokit.Base.{ℕ, zero, suc, ◌+◌, ◌-◌, ◌<◌, ◌≡◌, Bool, true, false, ◌==◌, if◌then◌else◌}
use turbokit.Sync.Threads.{update}

pub record Mutex : Type 0 where
  pub is_locked : Bool
  pub shared_count : ℕ

abbrev pub mutex : Bool → ℕ → Mutex
mutex l c = record { is_locked = l; shared_count = c }

-- The accesses that a thread may be about to make, and outside all calls `idle`, `exclusive` with
-- the lock, and `shared` with a share of it.
pub data Place : Type 0 where
  idle : Place
  -- `lock`: the load that spins, the exchange, and the load that waits for the readers.
  lock_load : Place
  lock_exchange : Place
  lock_wait : Place
  exclusive : Place
  -- `try_lock`: the two loads, the exchange, the second load of the count, and the store that gives up.
  try_load : Place
  try_count : Place
  try_exchange : Place
  try_recount : Place
  try_restore : Place
  -- `lock_shared`: the load that spins, the addition, the second load, and the subtraction.
  share_load : Place
  share_add : Place
  share_check : Place
  share_subtract : Place
  shared : Place
  -- `try_lock_shared`: the same, without spinning.
  try_share_load : Place
  try_share_add : Place
  try_share_check : Place
  try_share_subtract : Place

-- The next access of a thread, which for a thread with the lock is the one of `unlock`, and for one
-- with a share the one of `unlock_shared`.
unfoldable pub advance : Place → Mutex → Place × Mutex
advance idle m = (idle, m)
advance lock_load m = (if m.is_locked then lock_load else lock_exchange, m)
advance lock_exchange m = (if m.is_locked then lock_load else lock_wait, mutex true m.shared_count)
advance lock_wait m = (if m.shared_count == 0 then exclusive else lock_wait, m)
advance exclusive m = (idle, mutex false m.shared_count)
advance try_load m = (if m.is_locked then idle else try_count, m)
advance try_count m = (if m.shared_count == 0 then try_exchange else idle, m)
advance try_exchange m = (if m.is_locked then idle else try_recount, mutex true m.shared_count)
advance try_recount m = (if m.shared_count == 0 then exclusive else try_restore, m)
advance try_restore m = (idle, mutex false m.shared_count)
advance share_load m = (if m.is_locked then share_load else share_add, m)
advance share_add m = (share_check, mutex m.is_locked (m.shared_count + 1))
advance share_check m = (if m.is_locked then share_subtract else shared, m)
advance share_subtract m = (share_load, mutex m.is_locked (m.shared_count - 1))
advance shared m = (idle, mutex m.is_locked (m.shared_count - 1))
advance try_share_load m = (if m.is_locked then idle else try_share_add, m)
advance try_share_add m = (try_share_check, mutex m.is_locked (m.shared_count + 1))
advance try_share_check m = (if m.is_locked then try_share_subtract else shared, m)
advance try_share_subtract m = (idle, mutex m.is_locked (m.shared_count - 1))

-- The first access of each call that an idle thread may make.
pub data Call : Place → Type 0 where
  lock : Call lock_load
  try_lock : Call try_load
  lock_shared : Call share_load
  try_lock_shared : Call try_share_load

pub record System : Type 0 where
  pub state : Mutex
  pub pc : ℕ → Place

abbrev pub system : Mutex → (ℕ → Place) → System
system m pc = record { state = m; pc = pc }

-- One of `n` threads begins a call, or makes its next access.
pub data Step (n : ℕ) : System → System → Type 0 where
  call :
      (m : Mutex) (pc : ℕ → Place) (i : ℕ) (p : Place)
      → i < n
      → pc i ≡ idle
      → Call p
      → Step n (system m pc) (system m (update pc i p))
  access :
      (m : Mutex) (pc : ℕ → Place) (i : ℕ)
      → i < n
      → Step n (system m pc) (system (advance (pc i) m).1 (update pc i (advance (pc i) m).0))

pub data Reachable (n : ℕ) : System → Type 0 where
  constructed : Reachable n (system (mutex false 0) (λ i. idle))
  next : {s s' : System} → Reachable n s → Step n s s' → Reachable n s'

-- `k` accesses of a thread in a row.
unfoldable pub accesses : ℕ → Place → Mutex → Place × Mutex
unfolding advance
accesses zero p m = (p, m)
accesses (suc k) p m = let (p', m') = advance p m in accesses k p' m'
