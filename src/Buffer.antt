-- ===== src/Buffer.antt =====
-- `MemoryBlock` and `SharedMemoryBlock` of include/buffer.h. The blocks live in one store, and the
-- handles, by a number each, point to them; a block that has been freed is not there.
pub mod Counts
pub mod Unique
pub mod Owned
use turbokit.Base.{ℕ, ◌+◌, ◌-◌, ◌%◌, ◌^◌, Bool, false, Option, none, some, ◌==◌, if◌then◌else◌}
pub use turbokit.Base.{update}

pub record MemoryBlock : Type 0 where
  pub capacity : ℕ
  pub reference_count : ℕ

pub record Store : Type 0 where
  pub blocks : ℕ → Option MemoryBlock
  pub handles : ℕ → Option ℕ

-- How a call ends: `fault` is an access to a block that is not there, and `runtime_error` the
-- exception.
pub data Result : Type 0 where
  ok : Store → Result
  runtime_error : Result
  fault : Result

-- `SharedMemoryBlock(std::nullptr_t)`, and a handle that is gone.
abbrev pub point : ℕ → Option ℕ → Store → Store
point i p s = record s { handles = update s.handles i p }

-- `fetch_add(1)`, on 32 bits.
unfoldable pub increment_reference : ℕ → Store → Result
increment_reference b s = elim (s.blocks b) [
  | none ↦ fault
  | some block ↦ ok (record s {
    blocks =
        update s.blocks b
          (some (record block { reference_count = (block.reference_count + 1) % 2 ^ 32 }));
  })
]

-- `SharedMemoryBlock(MemoryBlock *)`
unfoldable pub take : (i b : ℕ) → Store → Result
take i b s = elim (s.blocks b) [
  | none ↦ fault
  | some block ↦
      if block.reference_count == 0
      then increment_reference b (point i (some b) s)
      else runtime_error
]

-- The copy constructor and the copy assignment of the handle `j` from the handle `i`: they read the
-- same.
unfoldable pub copy : (j i : ℕ) → Store → Result
copy j i s = elim (s.handles i) [
  | none ↦ ok (point j none s)
  | some b ↦ increment_reference b (point j (some b) s)
]

-- The move constructor.
unfoldable pub move_construct : (j i : ℕ) → Store → Result
move_construct j i s = ok (point i none (point j (s.handles i) s))

-- The move assignment swaps.
unfoldable pub move_assign : (j i : ℕ) → Store → Result
move_assign j i s = ok (point i (s.handles j) (point j (s.handles i) s))

-- The destructor, with `fetch_sub(1)` on 32 bits; the last reference frees the block.
unfoldable pub destruct : ℕ → Store → Result
destruct i s = elim (s.handles i) [
  | none ↦ ok s
  | some b ↦ elim (s.blocks b) [
    | none ↦ fault
    | some block ↦
        let count = (block.reference_count + 2 ^ 32 - 1) % 2 ^ 32 in
        ok (
          point i none (record s {
            blocks =
                update s.blocks b
                  (if count == 0 then none else some (record block { reference_count = count }));
          }))
  ]
]
