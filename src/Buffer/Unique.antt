-- ===== src/Buffer/Unique.antt =====
-- `UniqueMemoryBlock` of include/buffer.h, next to the shared handles: both point into one store.
use turbokit.Base.{ℕ, ◌<◌, ◌≡◌, Bool, true, false, Option, none, some}
use turbokit.Buffer.{Store, Result, ok, runtime_error, fault, update, take}

-- `loose` has the blocks whose pointer the program keeps, since `relinquish` has returned it and no
-- handle has taken it.
pub record Owners : Type 0 where
  pub store : Store
  pub uniques : ℕ → Option ℕ
  pub loose : ℕ → Bool

-- How a call ends: with the handles after it, with `std::bad_alloc` and those, with the exception of
-- a shared handle, or by an access to a block that is not there.
pub data Ending : Type 0 where
  ok_ending : Owners → Ending
  bad_alloc : Owners → Ending
  refused : Ending
  bad_access : Ending

-- A unique handle that points to this, or to nothing.
abbrev pub hold : ℕ → Option ℕ → Owners → Owners
hold i p u = record u { uniques = update u.uniques i p }

abbrev pub keep : ℕ → Bool → Owners → Owners
keep b l u = record u { loose = update u.loose b l }

-- `MemoryBlock::create`, with what `malloc` returns: an address or the null pointer. `none` is
-- `std::bad_alloc`.
unfoldable pub create : (malloc : Option ℕ) (bytes : ℕ) → Store → Option (ℕ × Store)
create malloc bytes s = elim malloc [
  | none ↦ none
  | some b ↦ some (
    b,
    record s {
      blocks = update s.blocks b (some (record { capacity = bytes; reference_count = 0 }));
    },
  )
]

unfoldable pub destroy : ℕ → Store → Store
destroy b s = record s { blocks = update s.blocks b none }

unfoldable pub create_memory_block : (j : ℕ) (malloc : Option ℕ) (bytes : ℕ) → Owners → Ending
create_memory_block j malloc bytes u = elim (create malloc bytes u.store) [
  | none ↦ bad_alloc u
  | some (b, s) ↦ ok_ending (hold j (some b) (record u { store = s }))
]

unfoldable pub move_construct : (j i : ℕ) → Owners → Owners
move_construct j i u = hold i none (hold j (u.uniques i) u)

-- The move assignment swaps.
unfoldable pub move_assign : (j i : ℕ) → Owners → Owners
move_assign j i u = hold i (u.uniques j) (hold j (u.uniques i) u)

unfoldable pub destruct : ℕ → Owners → Ending
destruct i u = elim (u.uniques i) [
  | none ↦ ok_ending u
  | some b ↦ elim (u.store.blocks b) [
    | none ↦ bad_access
    | some block ↦ ok_ending (hold i none (record u { store = destroy b u.store }))
  ]
]

-- The pointer that it returns is the program's.
unfoldable pub relinquish : ℕ → Owners → Option ℕ × Owners
relinquish i u =
    (u.uniques i, hold i none (elim (u.uniques i) [ none ↦ u | some b ↦ keep b true u ]))

-- `UniqueMemoryBlock(MemoryBlock *)`, of a block of the program.
unfoldable pub adopt : (j b : ℕ) → Owners → Owners
adopt j b u = hold j (some b) (keep b false u)

abbrev pub with_store : Owners → Result → Ending
with_store u (ok s) = ok_ending (record u { store = s })
with_store u runtime_error = refused
with_store u fault = bad_access

-- `SharedMemoryBlock(MemoryBlock *)`, of a block of the program.
unfoldable pub share : (j b : ℕ) → Owners → Ending
share j b u = with_store (keep b false u) (take j b u.store)

-- `MemoryBlock::destroy`, of a block of the program.
unfoldable pub discard : ℕ → Owners → Ending
discard b u = elim (u.store.blocks b) [
  | none ↦ bad_access
  | some block ↦ ok_ending (keep b false (record u { store = destroy b u.store }))
]

-- The calls that may be made of unique handles, and of the pointers that `relinquish` returns.
pub data Call : Type 0 where
  create_call : (j : ℕ) → Option ℕ → ℕ → Call
  construct_call : (j i : ℕ) → Call
  assign_call : (j i : ℕ) → Call
  destruct_call : ℕ → Call
  relinquish_call : ℕ → Call
  adopt_call : (j b : ℕ) → Call
  share_call : (j b : ℕ) → Call
  discard_call : ℕ → Call

abbrev pub call : Call → Owners → Ending
call (create_call j malloc bytes) u = create_memory_block j malloc bytes u
call (construct_call j i) u = ok_ending (move_construct j i u)
call (assign_call j i) u = ok_ending (move_assign j i u)
call (destruct_call i) u = destruct i u
call (relinquish_call i) u = ok_ending (relinquish i u).1
call (adopt_call j b) u = ok_ending (adopt j b u)
call (share_call j b) u = share j b u
call (discard_call b) u = discard b u

-- Where `malloc` fails, the call throws, and no other one does.
abbrev pub ending : Call → Owners → Ending
ending (create_call j none bytes) u = bad_alloc u
ending c u = ok_ending u

-- `malloc` returns the address of no block, a new handle has none before it is constructed, and a
-- pointer is used that the program has.
abbrev pub Allowed : ℕ → Call → Owners → Type 0
Allowed n (create_call j none bytes) u = Unit
Allowed n (create_call j (some b) bytes) u = (u.uniques j ≡ none) × (u.store.blocks b ≡ none)
Allowed n (construct_call j i) u = u.uniques j ≡ none
Allowed n (assign_call j i) u = Unit
Allowed n (destruct_call i) u = Unit
Allowed n (relinquish_call i) u = Unit
Allowed n (adopt_call j b) u = (u.uniques j ≡ none) × (u.loose b ≡ true)
Allowed n (share_call j b) u = (j < n) × (u.store.handles j ≡ none) × (u.loose b ≡ true)
Allowed n (discard_call b) u = u.loose b ≡ true
