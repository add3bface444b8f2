-- ===== src/Vector/Array.antt =====
-- `DynamicArray` (include/vector.h). A pointer is its distance from `memory_start`; an argument is a
-- value, so one that refers to an element of the array itself is not modelled.
use turbokit.Base.{
  ℕ, zero, suc, ◌+◌, ◌-◌, ◌*◌, ◌/◌, max, Bool, true, false, not, ◌&&◌, ◌||◌, Option, none, some,
  ◌==◌, ltb, leb, if◌then◌else◌,
}
use turbokit.Vector.Memory.{
  Slot, raw, live, moved, Element, update, is_raw, destroy, construct, move_construct, memcpy,
  relocate_elements, compact, transfer,
}

-- `fault` is an access that the source may not make, and `out_of_range` its exception.
pub data Result (A : Type 0) : Type 0 where
  ok : A → Result A
  out_of_range : Result A
  fault : Result A

module _ {A B : Type 0} where
  abbrev pub or_fault : Option A → (A → Result B) → Result B
  or_fault none f = fault
  or_fault (some a) f = f a

  infixl 5 ◌>>=◌
  abbrev pub ◌>>=◌ : Result A → (A → Result B) → Result B
  ok a >>= f = f a
  out_of_range >>= f = out_of_range
  fault >>= f = fault

pub record DynamicArray (A : Type 0) : Type 0 where
  pub allocated : Bool
  pub memory : ℕ → Slot A
  pub memory_limit : ℕ
  pub current_start : ℕ
  pub current_end : ℕ
  pub element_count : ℕ

module _ {A : Type 0} where
  abbrev pub new : DynamicArray A
  new = record {
    allocated = false;
    memory = λ i. raw;
    memory_limit = 0;
    current_start = 0;
    current_end = 0;
    element_count = 0;
  }

  abbrev pub get_capacity : DynamicArray A → ℕ
  get_capacity v = v.memory_limit - v.current_start

  abbrev pub is_empty : DynamicArray A → Bool
  is_empty v = v.current_start == v.current_end

  -- What the slot at `i` has to give to a reader.
  abbrev pub value_at : Slot A → Result A
  value_at raw = fault
  value_at (live a) = ok a
  value_at moved = fault

  unfoldable pub get_at : DynamicArray A → ℕ → Result A
  get_at v position =
      if leb v.element_count position
      then out_of_range
      else value_at (v.memory (v.current_start + position))

  unfoldable pub get_first : DynamicArray A → Result A
  get_first v = if v.element_count == 0 then out_of_range else value_at (v.memory v.current_start)

  unfoldable pub get_last : DynamicArray A → Result A
  get_last v =
      if v.element_count == 0 then out_of_range else value_at (v.memory (v.current_end - 1))

  -- The last lines of `remove_range`.
  abbrev pub rewind_empty : DynamicArray A → DynamicArray A
  rewind_empty v = if is_empty v then record v { current_start = 0; current_end = 0 } else v

  unfoldable pub clear : DynamicArray A → Result (DynamicArray A)
  clear v =
      or_fault (destroy v.memory (v.current_end - v.current_start) v.current_start)
        λ m. ok (record v { memory = m; current_start = 0; current_end = 0; element_count = 0 })

module _ {A : Type 0} (e : Element) where
  unfoldable pub allocate_memory : ℕ → DynamicArray A → Result (DynamicArray A)
  allocate_memory required_size v =
      or_fault
        (if v.allocated
          then (if e.trivial
              then (if leb v.element_count required_size
                  then some (memcpy v.memory v.current_start v.element_count)
                  else none)
              else transfer required_size v.memory (λ i. raw) (v.current_end - v.current_start)
                  v.current_start 0)
          else some (λ i. raw))
        λ m. ok (record v {
          allocated = true;
          memory = m;
          memory_limit = required_size;
          current_start = 0;
          current_end = v.element_count;
        })

  unfoldable pub reserve : ℕ → DynamicArray A → Result (DynamicArray A)
  reserve required_size v =
      if leb required_size (get_capacity v) then ok v else allocate_memory required_size v

  unfoldable pub grow_capacity : DynamicArray A → Result (DynamicArray A)
  grow_capacity v = allocate_memory (max (get_capacity v * 2) 16) v

  -- What `emplace_back` and `insert_at` do first.
  unfoldable pub make_room : DynamicArray A → Result (DynamicArray A)
  make_room v =
      if v.current_end == v.memory_limit
      then (if get_capacity v == v.element_count then grow_capacity v else fault)
      else ok v

  unfoldable pub emplace_back : A → DynamicArray A → Result (DynamicArray A)
  emplace_back a v = make_room v >>= λ w.
      or_fault (construct w.memory_limit a w.memory 1 w.current_end) λ m. ok (record w {
        memory = m;
        current_end = w.current_end + 1;
        element_count = w.element_count + 1;
      })

  -- The branch of `remove_range` at the start of the array, behind the destructors.
  unfoldable pub drop_front :
      (removed_count range_end : ℕ) → DynamicArray A → Result (DynamicArray A)
  drop_front removed_count range_end v =
      let count = v.element_count - removed_count in
      let w = record v { current_start = range_end; element_count = count } in
      if (range_end == v.current_end)
        || not (ltb count range_end && leb (1024 * 512 / e.size) range_end)
      then ok w
      else or_fault
          (if e.trivial
            then relocate_elements e v.memory 0 range_end v.current_end
            else elim (compact (v.current_end + 1) range_end v.current_end v.memory 0 range_end) [
              | none ↦ none
              | some (m, mem_ptr, curr_ptr) ↦
                  elim (relocate_elements e m mem_ptr curr_ptr v.current_end) [
                    | none ↦ none
                    | some m' ↦ destroy m' (v.current_end - curr_ptr) curr_ptr
                  ]
            ])
          λ m. ok (record w { memory = m; current_start = 0; current_end = count })

  unfoldable pub drop_inside :
      (range_begin range_end : ℕ) → DynamicArray A → Result (DynamicArray A)
  drop_inside range_begin range_end v =
      let removed_count = range_end - range_begin in
      or_fault (relocate_elements e v.memory range_begin range_end v.current_end) λ m.
        or_fault (destroy m removed_count (v.current_end - removed_count)) λ m'. ok (record v {
          memory = m';
          current_end = v.current_end - removed_count;
          element_count = v.element_count - removed_count;
        })

  unfoldable pub remove_range :
      (range_begin range_end : ℕ) → DynamicArray A → Result (DynamicArray A)
  remove_range range_begin range_end v =
      (if range_begin == v.current_start
        then or_fault (destroy v.memory (range_end - range_begin) range_begin)
            (λ m. drop_front (range_end - range_begin) range_end (record v { memory = m }))
        else drop_inside range_begin range_end v)
      >>= λ w. ok (rewind_empty w)

  -- The position is a distance from `current_start` here, and in the result.
  unfoldable pub remove_at : ℕ → DynamicArray A → Result (DynamicArray A × ℕ)
  remove_at index v =
      if leb v.element_count index
      then out_of_range
      else remove_range (v.current_start + index) (v.current_start + index + 1) v >>= λ w.
          ok (w, index)

  unfoldable pub remove_first : DynamicArray A → Result (DynamicArray A)
  remove_first v =
      if v.element_count == 0
      then out_of_range
      else remove_range v.current_start (v.current_start + 1) v

  unfoldable pub remove_last : DynamicArray A → Result (DynamicArray A)
  remove_last v =
      if v.element_count == 0
      then out_of_range
      else or_fault (destroy v.memory 1 (v.current_end - 1)) λ m. ok (record v {
        memory = m;
        current_end = v.current_end - 1;
        element_count = v.element_count - 1;
      })

  -- `a` is the value of `ElementType()`.
  unfoldable pub resize : A → ℕ → DynamicArray A → Result (DynamicArray A)
  resize a new_size v =
      (if ltb new_size v.element_count
        then or_fault
            (destroy v.memory (v.current_end - (v.current_start + new_size))
              (v.current_start + new_size))
            (λ m. ok (record v { memory = m }))
        else if ltb v.element_count new_size
        then (reserve new_size v >>= λ w.
            or_fault
              (construct w.memory_limit a w.memory (w.current_start + new_size - w.current_end)
                w.current_end)
              (λ m. ok (record w { memory = m })))
        else ok v)
      >>= λ w. ok (record w { current_end = w.current_start + new_size; element_count = new_size })

  -- A move leaves a trivially copyable object as it was.
  abbrev pub move_in : (ℕ → Slot A) → (destination source : ℕ) → Option (ℕ → Slot A)
  move_in m destination source =
      if e.trivial
      then (if is_raw (m source) then none else some (update m destination (m source)))
      else move_construct m destination source

  -- The position is a distance from `current_start`, here and in the result.
  unfoldable pub insert_at : ℕ → A → DynamicArray A → Result (DynamicArray A × ℕ)
  insert_at index a v =
      if v.current_start + index == v.current_end
      then (emplace_back a v >>= λ w. ok (w, w.element_count - 1))
      else (make_room v >>= λ w. or_fault (move_in w.memory w.current_end (w.current_end - 1)) λ m.
          let position = w.current_start + index in
          or_fault (relocate_elements e m (position + 1) position w.current_end) λ m'. ok (
            record w {
              memory = update m' position (live a);
              current_end = w.current_end + 1;
              element_count = w.element_count + 1;
            },
            index,
          ))

  -- The loop of the copy assignment.
  unfoldable pub copy_elements :
      DynamicArray A → (rounds i : ℕ) → DynamicArray A → Result (DynamicArray A)
  copy_elements other zero i v = ok v
  copy_elements other (suc rounds) i v = get_at other i >>= λ a.
      or_fault (construct v.memory_limit a v.memory 1 v.current_end) λ m.
        copy_elements other rounds (i + 1) (record v {
          memory = m;
          current_end = v.current_end + 1;
          element_count = v.element_count + 1;
        })

  unfoldable pub copy_assign : DynamicArray A → DynamicArray A → Result (DynamicArray A)
  copy_assign other v = clear v >>= λ w.
      reserve other.element_count w >>= λ x. copy_elements other other.element_count 0 x
