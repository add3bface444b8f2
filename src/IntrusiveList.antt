-- ===== src/IntrusiveList.antt =====
-- include/intrusive_list.h: a circular doubly linked list through the elements' own links.
-- The links live in one heap that all lists share; a list is the address of its sentinel, and an
-- iterator the address that it points to. The payload of an element is never touched.
pub mod Heap
pub mod Ring
pub mod Insert
pub mod Erase
pub mod MoveAssign
pub mod Traverse
use turbokit.Base.{ℕ, zero, suc, Bool, List, [], ◌∷◌, ◌==◌, if◌then◌else◌}
use Heap.{Ptr, null, M, pure, ◌>>=◌, ◌>>◌, get_next, get_previous, set_next, set_previous}

-- `clear`, and the constructor: the sentinel alone.
unfoldable pub clear : Ptr → M (Unit {0})
clear sentinel = do set_previous sentinel sentinel; set_next sentinel sentinel

unfoldable pub construct : Ptr → M (Unit {0})
construct sentinel = do set_previous sentinel sentinel; set_next sentinel sentinel

unfoldable pub begin : Ptr → M Ptr
begin sentinel = get_next sentinel

unfoldable pub end : Ptr → M Ptr
end sentinel = pure sentinel

unfoldable pub empty : Ptr → M Bool
empty sentinel = do next ← get_next sentinel; pure (next == sentinel)

-- `operator++` and `operator--` of the iterator.
unfoldable pub increment : Ptr → M Ptr
increment current = get_next current

unfoldable pub decrement : Ptr → M Ptr
decrement current = get_previous current

unfoldable pub insert : (position element : Ptr) → M Ptr
insert position element = do
  prev_element ← get_previous position
  set_previous position element
  set_next prev_element element
  set_next element position
  set_previous element prev_element
  pure position

unfoldable pub erase : Ptr → M Ptr
erase position = do
  next_element ← get_next position
  prev_element ← get_previous position
  set_previous next_element prev_element
  set_next prev_element next_element
  set_previous position null
  set_next position null
  pure next_element

unfoldable pub push_front : (sentinel element : Ptr) → M Ptr
unfolding begin insert
push_front sentinel element = do first ← begin sentinel; insert first element

unfoldable pub push_back : (sentinel element : Ptr) → M Ptr
unfolding end insert
push_back sentinel element = do last ← end sentinel; insert last element

unfoldable pub pop_front : Ptr → M (Unit {0})
unfolding begin erase
pop_front sentinel = do first ← begin sentinel; _ ← erase first; pure tt

unfoldable pub pop_back : Ptr → M (Unit {0})
unfolding erase
pop_back sentinel = do last ← get_previous sentinel; _ ← erase last; pure tt

unfoldable pub front : Ptr → M Ptr
front sentinel = get_next sentinel

unfoldable pub back : Ptr → M Ptr
back sentinel = get_previous sentinel

-- `operator=(LinkedList &&)`
unfoldable pub move_assign : (sentinel other : Ptr) → M (Unit {0})
unfolding empty clear
move_assign sentinel other = do
  none_left ← empty other
  if none_left then clear sentinel else (do
    sentinel_prev ← get_previous other
    sentinel_next ← get_next other
    set_previous sentinel_next sentinel
    set_next sentinel_prev sentinel
    set_previous sentinel sentinel_prev
    set_next sentinel sentinel_next
    clear other)

-- `for (; it != end(); ++it)`, the addresses met.
unfoldable pub forward : ℕ → (sentinel current : Ptr) → M (List Ptr)
unfolding increment
forward zero sentinel current = λ h. Heap.fault
forward (suc fuel) sentinel current =
    if current == sentinel
    then pure []
    else (do next ← increment current; rest ← forward fuel sentinel next; pure (current ∷ rest))

-- The loop from `begin()`.
unfoldable pub traverse : ℕ → Ptr → M (List Ptr)
unfolding begin
traverse fuel sentinel = do it ← begin sentinel; forward fuel sentinel it
