-- ===== src/Freelist.antt =====
-- `MemoryPool` of include/freelist.h: the `next` links of all elements, the pool of each thread, and the
-- pool that the threads share. An element is known by its address, and 0 is the null pointer. A call
-- is taken as one step, since a thread's pool is its own and the shared pool is used under its lock.
pub mod Chains
pub mod Pools
pub mod Give
pub mod Refine
pub mod Remove
pub mod Calls
use turbokit.Base.{
  ℕ, zero, suc, ◌+◌, ◌-◌, ◌*◌, ◌/◌, ◌%◌, ◌^◌, max, Option, none, some, List, [], ◌∷◌, ◌==◌,
  if◌then◌else◌, update,
}

pub record ThreadLocalPool : Type 0 where
  pub first_element : ℕ
  pub element_count : ℕ

-- `available_elements` has its back at the head of the list.
pub record State : Type 0 where
  pub next : ℕ → ℕ
  pub locals : ℕ → ThreadLocalPool
  pub available_elements : List (ℕ × ℕ)

infixl 5 ◌>>=◌
abbrev pub ◌>>=◌ : {A B : Type 0} → Option A → (A → Option B) → Option B
none >>= f = none
some a >>= f = f a

-- The loop of `transfer_to_shared_pool`, which has `n` rounds left; `none` is a read through the null
-- pointer, here and below.
unfoldable pub walk : ℕ → (ℕ → ℕ) → ℕ → Option ℕ
walk zero next current = some current
walk (suc n) next current =
    let rest = walk n next (next current) in if current == 0 then none else rest

-- The loop starts at the count 1.
abbrev pub new_count : ℕ → ℕ
new_count elements_to_retain = max 1 elements_to_retain

unfoldable pub transfer_to_shared_pool : (t elements_to_retain : ℕ) → State → Option State
transfer_to_shared_pool t elements_to_retain s = do
  current ← walk (elements_to_retain - 1) s.next (s.locals t).first_element
  if current == 0
      then none
      else some (record {
        next = update s.next current 0;
        locals =
            update s.locals t
              (record (s.locals t) { element_count = new_count elements_to_retain });
        available_elements =
            (
              s.next current,
              ((s.locals t).element_count + 2 ^ 64 - new_count elements_to_retain) % 2 ^ 64,
            )
            ∷ s.available_elements;
      })

-- The last lines of `add_element`.
unfoldable pub push_element : (t element : ℕ) → State → State
push_element t element s = record s {
  next = update s.next element (s.locals t).first_element;
  locals = update s.locals t (record {
    first_element = element;
    element_count = ((s.locals t).element_count + 1) % 2 ^ 64;
  });
}

unfoldable pub add_element : (t element max_local_elements : ℕ) → State → Option State
add_element t element max_local_elements s =
    if (s.locals t).element_count == max_local_elements
    then (transfer_to_shared_pool t (max_local_elements / 8) s >>= λ s'.
        some (push_element t element s'))
    else some (push_element t element s)

-- The element, or the null pointer where there is none.
unfoldable pub remove_from_shared_pool : ℕ → State → Option (ℕ × State)
remove_from_shared_pool t s = elim s.available_elements [
  | [] ↦ some (0, s)
  | (result, remaining_count) ∷ rest ↦
      if result == 0
      then none
      else some (
        result,
        record s {
          available_elements = rest;
          locals = update s.locals t (record {
            first_element = s.next result;
            element_count = (remaining_count + 2 ^ 64 - 1) % 2 ^ 64;
          });
        },
      )
]

unfoldable pub remove_element : ℕ → State → Option (ℕ × State)
remove_element t s =
    let result = (s.locals t).first_element in
    if result == 0
    then remove_from_shared_pool t s
    else some (
      result,
      record s {
        locals = update s.locals t (record {
          first_element = s.next result;
          element_count = ((s.locals t).element_count + 2 ^ 64 - 1) % 2 ^ 64;
        });
      },
    )
