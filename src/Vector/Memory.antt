-- ===== src/Vector/Memory.antt =====
-- The memory of `DynamicArray` (include/vector.h), slot by slot, and what its loops do to it. An
-- access to a slot that the source may not make is `none`.
use turbokit.Base.{
  ℕ, zero, suc, ◌+◌, ◌-◌, Bool, true, false, ◌||◌, ◌&&◌, Option, none, some, ◌==◌, ltb, leb,
  if◌then◌else◌,
}
pub use turbokit.Base.{update}

-- No object, an object with a value, and an object that has been moved from.
pub data Slot (A : Type 0) : Type 0 where
  raw : Slot A
  live : A → Slot A
  moved : Slot A

-- `ElementType`: whether it is trivially copyable, and its size.
pub record Element : Type 0 where
  pub trivial : Bool
  pub size : ℕ

module _ {A : Type 0} where
  abbrev pub is_raw : Slot A → Bool
  is_raw raw = true
  is_raw (live a) = false
  is_raw moved = false

  -- The destructor, in a loop over `rounds` slots from `i` on.
  unfoldable pub destroy : (ℕ → Slot A) → (rounds i : ℕ) → Option (ℕ → Slot A)
  destroy m zero i = some m
  destroy m (suc rounds) i = if is_raw (m i) then none else destroy (update m i raw) rounds (i + 1)

  -- Placement new of `n` elements, within the memory's `limit` slots.
  unfoldable pub construct : (limit : ℕ) → A → (ℕ → Slot A) → (rounds i : ℕ) → Option (ℕ → Slot A)
  construct limit a m zero i = some m
  construct limit a m (suc rounds) i =
      if ltb i limit then construct limit a (update m i (live a)) rounds (i + 1) else none

  -- `new (destination) ElementType(std::move(*source))`
  unfoldable pub move_construct : (ℕ → Slot A) → (destination source : ℕ) → Option (ℕ → Slot A)
  move_construct m destination source =
      if is_raw (m source)
      then none
      else some (update (update m source moved) destination (m source))

  -- `*destination = std::move(*source)`: an object that is moved to itself has no particular value.
  unfoldable pub move_assign_slot : (ℕ → Slot A) → (destination source : ℕ) → Option (ℕ → Slot A)
  move_assign_slot m destination source =
      if is_raw (m source) || is_raw (m destination)
      then none
      else if destination == source
      then some (update m source moved)
      else some (update (update m source moved) destination (m source))

  -- `std::memmove` of `n` slots.
  unfoldable pub memmove : (ℕ → Slot A) → (destination source n : ℕ) → ℕ → Slot A
  memmove m destination source n j =
      if leb destination j && ltb j (destination + n) then m (source + (j - destination)) else m j

  -- `std::memcpy` of `n` slots to the start of another memory.
  unfoldable pub memcpy : (ℕ → Slot A) → (source n : ℕ) → ℕ → Slot A
  memcpy old source n j = if ltb j n then old (source + j) else raw

  -- The two loops of `relocate_elements`; the second one goes down from `destination + rounds` and
  -- `source + rounds`.
  unfoldable pub move_up : (ℕ → Slot A) → (rounds destination source : ℕ) → Option (ℕ → Slot A)
  move_up m zero destination source = some m
  move_up m (suc rounds) destination source = elim (move_assign_slot m destination source) [
    | none ↦ none
    | some m' ↦ move_up m' rounds (destination + 1) (source + 1)
  ]

  unfoldable pub move_down : (ℕ → Slot A) → (rounds destination source : ℕ) → Option (ℕ → Slot A)
  move_down m zero destination source = some m
  move_down m (suc rounds) destination source =
      elim (move_assign_slot m (destination + rounds) (source + rounds)) [
        | none ↦ none
        | some m' ↦ move_down m' rounds destination source
      ]

  unfoldable pub relocate_elements :
      Element → (ℕ → Slot A) → (destination source_begin source_end : ℕ) → Option (ℕ → Slot A)
  relocate_elements e m destination source_begin source_end =
      let n = source_end - source_begin in
      if e.trivial
      then some (memmove m destination source_begin n)
      else if leb destination source_begin
      then move_up m n destination source_begin
      else move_down m n destination source_begin

  -- The loop of `remove_range` that moves the elements to the start of the memory.
  unfoldable pub compact :
      ℕ
      → (current_start current_end : ℕ) → (ℕ → Slot A)
      → (mem_ptr curr_ptr : ℕ) → Option ((ℕ → Slot A) × ℕ × ℕ)
  compact zero s f m mem_ptr curr_ptr = none
  compact (suc fuel) s f m mem_ptr curr_ptr =
      if (mem_ptr == s) || (curr_ptr == f)
      then some (m, mem_ptr, curr_ptr)
      else elim (move_construct m mem_ptr curr_ptr) [
        | none ↦ none
        | some m' ↦ compact fuel s f m' (mem_ptr + 1) (curr_ptr + 1)
      ]

  -- The loop of `allocate_memory` that moves the elements into the new memory of `limit` slots.
  unfoldable pub transfer :
      (limit : ℕ) → (old new : ℕ → Slot A) → (rounds source destination : ℕ) → Option (ℕ → Slot A)
  transfer limit old new zero source destination = some new
  transfer limit old new (suc rounds) source destination =
      if is_raw (old source) || leb limit destination
      then none
      else transfer limit (update old source raw) (update new destination (old source)) rounds
          (source + 1) (destination + 1)
