-- ===== src/SimpleVector.antt =====
-- `BasicArray` of include/simple_vector.h. The slots of a memory are those of Vector.Memory.
pub mod Loops
pub mod Growth
pub mod Copies
use turbokit.Base.{
  ℕ, zero, suc, ◌+◌, ◌-◌, Bool, true, false, ◌||◌, Option, none, some, ◌==◌, ltb, leb,
  if◌then◌else◌, update,
}
use turbokit.Vector.Memory.{Slot, raw, live, moved, Element, is_raw, memcpy, move_assign_slot}

-- `elements`: the null pointer, a memory of so many slots, or one that has been deallocated.
pub data Pointer (A : Type 0) : Type 0 where
  null : Pointer A
  block : (ℕ → Slot A) → ℕ → Pointer A
  dangling : Pointer A

-- `threw` is the exception of an element's constructor, with the array that it leaves.
pub data Result (A : Type 0) : Type 0 where
  ok : A → Result A
  threw : A → Result A
  out_of_range : Result A
  fault : Result A

module _ {A B : Type 0} where
  abbrev pub or_fault : Option A → (A → Result B) → Result B
  or_fault none f = fault
  or_fault (some a) f = f a

infixl 5 ◌>>=◌
abbrev pub ◌>>=◌ : {A : Type 0} → Result A → (A → Result A) → Result A
ok a >>= f = f a
threw a >>= f = threw a
out_of_range >>= f = out_of_range
fault >>= f = fault

pub record BasicArray (A : Type 0) : Type 0 where
  pub elements : Pointer A
  pub count : ℕ

module _ {A : Type 0} where
  abbrev pub new : BasicArray A
  new = record { elements = null; count = 0 }

  -- What stands behind a pointer.
  abbrev pub slots : Pointer A → ℕ → Slot A
  slots null i = raw
  slots (block m size) i = m i
  slots dangling i = raw

  abbrev pub limit : Pointer A → ℕ
  limit null = 0
  limit (block m size) = size
  limit dangling = 0

  -- The pointer to the same memory with other slots.
  abbrev pub write_slots : Pointer A → (ℕ → Slot A) → Pointer A
  write_slots null m = null
  write_slots (block _ size) m = block m size
  write_slots dangling m = dangling

  -- `deallocate` takes the null pointer too, no memory twice, and a memory only with the size that it
  -- was allocated with.
  abbrev pub can_deallocate : Pointer A → ℕ → Bool
  can_deallocate null n = true
  can_deallocate (block m size) n = size == n
  can_deallocate dangling n = false

  abbrev pub value_at : Slot A → Result A
  value_at raw = fault
  value_at (live a) = ok a
  value_at moved = fault

  unfoldable pub get_at : BasicArray A → ℕ → Result A
  get_at v position =
      if leb v.count position then out_of_range else value_at (slots v.elements position)

  -- The destructors of `rounds` slots from `i` on, the last one first.
  unfoldable pub destroy_down : (ℕ → Slot A) → (rounds i : ℕ) → Option (ℕ → Slot A)
  destroy_down m zero i = some m
  destroy_down m (suc rounds) i =
      let rest = destroy_down (update m (i + rounds) raw) rounds i in
      if is_raw (m (i + rounds)) then none else rest

  -- The destructor calls it too.
  unfoldable pub clear : BasicArray A → Result (BasicArray A)
  clear v =
      if v.count == 0
      then ok v
      else or_fault (destroy_down (slots v.elements) v.count 0) (λ m.
        if can_deallocate v.elements v.count
        then ok (record { elements = dangling; count = 0 })
        else fault)

  -- `*destination = std::move(*source)` from one memory to another, at the same index.
  unfoldable pub move_across : (old new : ℕ → Slot A) → ℕ → Option ((ℕ → Slot A) × (ℕ → Slot A))
  move_across old new i =
      if is_raw (old i) || is_raw (new i)
      then none
      else some (update old i moved, update new i (old i))

  -- The two loops of `relocate_elements`, up from `i` and down from `rounds`.
  unfoldable pub move_up : (old new : ℕ → Slot A) → (rounds i : ℕ) → Option (ℕ → Slot A)
  move_up old new zero i = some new
  move_up old new (suc rounds) i = elim (move_across old new i) [
    | none ↦ none
    | some (old', new') ↦ move_up old' new' rounds (i + 1)
  ]

  unfoldable pub move_down : (old new : ℕ → Slot A) → (rounds : ℕ) → Option (ℕ → Slot A)
  move_down old new zero = some new
  move_down old new (suc rounds) = elim (move_across old new rounds) [
    | none ↦ none
    | some (old', new') ↦ move_down old' new' rounds
  ]

  -- `relocate_elements` of `n` elements to a new memory, which is before the old one or not.
  unfoldable pub relocate_elements :
      Element → Bool → (old new : ℕ → Slot A) → ℕ → Option (ℕ → Slot A)
  relocate_elements e before old new n =
      if e.trivial
      then some (memcpy old 0 n)
      else if before
      then move_up old new n 0
      else move_down old new n

  -- Placement new of `rounds` elements from `i` on, up to the one whose constructor throws.
  unfoldable pub construct : (ℕ → Bool) → A → (ℕ → Slot A) → (rounds i : ℕ) → (ℕ → Slot A) × ℕ
  construct fails a m zero i = (m, i)
  construct fails a m (suc rounds) i =
      let rest = construct fails a (update m i (live a)) rounds (i + 1) in
      if fails i then (m, i) else rest

  -- The loop of the copy assignment, down to the index 0. An assignment wants an object.
  unfoldable pub copy_down : (BasicArray A) → (rounds : ℕ) → BasicArray A → Result (BasicArray A)
  copy_down other zero v = ok v
  copy_down other (suc rounds) v = elim (slots other.elements rounds) [
    | raw ↦ fault
    | moved ↦ fault
    | live x ↦
        if is_raw (slots v.elements rounds)
        then fault
        else copy_down other rounds (record v {
          elements = write_slots v.elements (update (slots v.elements) rounds (live x));
        })
  ]

module _ {A : Type 0} (e : Element) (before : Bool) (fails : ℕ → Bool) (a : A) where
  -- The branch of `resize` that allocates.
  unfoldable pub grow : ℕ → BasicArray A → Result (BasicArray A)
  grow new_size v = or_fault (relocate_elements e before (slots v.elements) (λ i. raw) v.count) λ m.
      if can_deallocate v.elements v.count
      then (let (m', stop) = construct fails a m (new_size - v.count) v.count in
          let w : BasicArray A = record { elements = block m' new_size; count = stop } in
          if stop == new_size then ok w else threw w)
      else fault

  -- `a` is the value of `ElementType()`.
  unfoldable pub resize : ℕ → BasicArray A → Result (BasicArray A)
  resize new_size v =
      if ltb new_size v.count
      then or_fault (destroy_down (slots v.elements) (v.count - new_size) new_size)
          (λ m. ok (record { elements = write_slots v.elements m; count = new_size }))
      else if ltb v.count new_size
      then grow new_size v
      else ok v

  unfoldable pub copy_assign : (BasicArray A) → BasicArray A → Result (BasicArray A)
  copy_assign other v = resize other.count v >>= λ w. copy_down other w.count w

-- The move assignment swaps the two arrays.
abbrev pub move_assign : {A : Type 0} → BasicArray A → BasicArray A → BasicArray A × BasicArray A
move_assign v other = (other, v)
