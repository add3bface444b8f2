-- ===== src/Tests/Pools.antt =====
-- Concrete pools for include/freelist.h.
use turbokit.Base.{
  ℕ, zero, suc, ◌+◌, ◌<◌, ◌≡◌, refl, none, some, [], ◌∷◌, ◌==◌, if◌then◌else◌, arith,
}
use turbokit.Freelist.{State, add_element, remove_element, ◌>>=◌}
use turbokit.Freelist.Pools.{Pools, put, get, total, IsLocal, Represents}
use turbokit.Freelist.Refine.{add_element-put}
use turbokit.Freelist.Remove.{remove_element-get}
use turbokit.Freelist.Calls.{remove_element-limit_one}

-- The thread 0 has 8 and then 9, and the thread 1 nothing; 5 has been given away.
abbrev state : State
state = record {
  next = λ i. if i == 8 then 9 else 0;
  locals = λ t.
      if t == 0
      then record { first_element = 8; element_count = 2 }
      else record { first_element = 0; element_count = 0 };
  available_elements = (5, 1) ∷ [];
}

abbrev pools : Pools
pools = record { own = λ t. if t == 0 then 8 ∷ 9 ∷ [] else []; shared = (5 ∷ []) ∷ [] }

state-IsLocal : (t : ℕ) → t < 2 → IsLocal state.next 2 (state.locals t) (pools.own t)
state-IsLocal zero h = ((refl, (omega arith), (refl, (omega arith), refl)), refl, omega arith)
state-IsLocal (suc zero) h = (refl, refl, omega arith)
state-IsLocal (suc (suc t)) h = absurd (omega arith)

state-Represents : Represents 2 2 state pools
state-Represents = record {
  locals = state-IsLocal;
  chunks = ((refl, (omega arith), refl), refl, omega arith, omega arith, tt);
  once = λ e. ground arith;
}

add_element-put_example :
    (s : State) × (add_element 0 7 2 state ≡ some s)
    × Represents 2 2 s (put 0 7 2 pools)
    × ((x : ℕ) → total 2 (put 0 7 2 pools) x ≡ total 2 pools x + (if 7 == x then 1 else 0))
add_element-put_example =
    add_element-put 2 2 (omega arith) 0 (omega arith) state pools 7 (omega arith) (omega arith) refl
      state-Represents

remove_element-get_example :
    (s : State) × (remove_element 1 state ≡ some ((get 1 pools).0, s))
    × Represents 2 2 s (get 1 pools).1
    × ((x : ℕ)
        → 0 < x
        → total 2 pools x ≡ total 2 (get 1 pools).1 x + (if (get 1 pools).0 == x then 1 else 0))
    × ((get 1 pools).0 ≡ 0 → (pools.own 1 ≡ []) × (pools.shared ≡ []))
remove_element-get_example =
    remove_element-get 2 2 (omega arith) 1 (omega arith) state pools state-Represents

-- The thread 0 has 8.
abbrev one : State
one = record {
  next = λ i. 0;
  locals = λ t.
      if t == 0
      then record { first_element = 8; element_count = 1 }
      else record { first_element = 0; element_count = 0 };
  available_elements = [];
}

abbrev one_pools : Pools
one_pools = record { own = λ t. if t == 0 then 8 ∷ [] else []; shared = [] }

one-IsLocal : (t : ℕ) → t < 2 → IsLocal one.next 1 (one.locals t) (one_pools.own t)
one-IsLocal zero h = ((refl, (omega arith), refl), refl, omega arith)
one-IsLocal (suc zero) h = (refl, refl, omega arith)
one-IsLocal (suc (suc t)) h = absurd (omega arith)

remove_element-limit_one_example : (add_element 0 7 1 one >>= remove_element 1) ≡ none
remove_element-limit_one_example =
    remove_element-limit_one 2 one one_pools 0 1 7 (omega arith) (omega arith) (omega arith)
      (record { locals = one-IsLocal; chunks = tt; once = λ e. ground arith }) refl refl
