-- ===== src/Freelist/Pools.antt =====
-- What the pools of include/freelist.h are meant to be: a stack of elements for each thread, and a stack
-- of such stacks that the threads share.
use turbokit.Base.{
  ℕ, ◌+◌, ◌/◌, ◌≡◌, ◌≢◌, ◌<◌, ◌≤◌, List, [], ◌∷◌, length, take, drop, occurrences, sum, ◌==◌,
  if◌then◌else◌, update, ℕ_discrete, update_self, update_other,
}
use turbokit.Freelist.{State, ThreadLocalPool, new_count}
use turbokit.Freelist.Chains.{Chain}

pub record Pools : Type 0 where
  pub own : ℕ → List ℕ
  pub shared : List (List ℕ)

-- A thread that has the most that it may keeps the first eighth of them, but one at least, and gives
-- the others away together.
unfoldable pub give_away : (t elements_to_retain : ℕ) → Pools → Pools
give_away t elements_to_retain p = record {
  own = update p.own t (take (new_count elements_to_retain) (p.own t));
  shared = drop (new_count elements_to_retain) (p.own t) ∷ p.shared;
}

unfoldable pub put_element : (t element : ℕ) → Pools → Pools
put_element t element p = record p { own = update p.own t (element ∷ p.own t) }

unfoldable pub put : (t element max_local_elements : ℕ) → Pools → Pools
put t element max_local_elements p =
    if length (p.own t) == max_local_elements
    then put_element t element (give_away t (max_local_elements / 8) p)
    else put_element t element p

-- A thread that has none takes over the stack that was given away last; 0 where there is none.
unfoldable pub get : ℕ → Pools → ℕ × Pools
get t p = elim (p.own t) [
  | x ∷ xs ↦ (x, record p { own = update p.own t xs })
  | [] ↦ elim p.shared [
    | (x ∷ xs) ∷ rest ↦ (x, record { own = update p.own t xs; shared = rest })
    | [] ∷ rest ↦ (0, p)
    | [] ↦ (0, p)
  ]
]

abbrev pub occurrences_shared : ℕ → List (List ℕ) → ℕ
occurrences_shared e [] = 0
occurrences_shared e (xs ∷ xss) = occurrences e xs + occurrences_shared e xss

-- How often an element stands in the pools of the first `n` threads and in the shared one.
abbrev pub total : ℕ → Pools → ℕ → ℕ
total n p e = sum n (λ t. occurrences e (p.own t)) + occurrences_shared e p.shared

-- The shared pool has no empty chain, and the counts beside the chains are right.
abbrev pub Chunks : (ℕ → ℕ) → ℕ → List (ℕ × ℕ) → List (List ℕ) → Type 0
Chunks next most [] [] = Unit
Chunks next most [] (xs ∷ xss) = ⊥
Chunks next most (c ∷ cs) [] = ⊥
Chunks next most (c ∷ cs) (xs ∷ xss) =
    Chain next c.0 xs
    × (c.1 ≡ length xs)
    × (0 < length xs)
    × (length xs ≤ most)
    × Chunks next most cs xss

-- The pool of a thread has this stack.
abbrev pub IsLocal : (ℕ → ℕ) → ℕ → ThreadLocalPool → List ℕ → Type 0
IsLocal next most l xs =
    Chain next l.first_element xs × (l.element_count ≡ length xs) × (length xs ≤ most)

-- The state of `n` threads stands for the pools: the chains are theirs, no element is in two places or
-- twice in one, every count is right, and none is above `most`.
pub record Represents (n most : ℕ) (s : State) (p : Pools) : Type 0 where
  pub locals : (t : ℕ) → t < n → IsLocal s.next most (s.locals t) (p.own t)
  pub chunks : Chunks s.next most s.available_elements p.shared
  pub once : (e : ℕ) → total n p e ≤ 1

-- One thread's pool and stack are others.
pub update-IsLocal :
    (next : ℕ → ℕ) (n most t : ℕ) (locals : ℕ → ThreadLocalPool) (own : ℕ → List ℕ)
    (l : ThreadLocalPool) (ys : List ℕ)
    → ((u : ℕ) → u < n → u ≢ t → IsLocal next most (locals u) (own u))
    → IsLocal next most l ys
    → (u : ℕ) → u < n
    → IsLocal next most (update locals t l u) (update own t ys u)
update-IsLocal next n most t locals own l ys others this u hu = elim (ℕ_discrete u t) [
  | yes same ↦ rw (same, update_self locals t l, update_self own t ys) this
  | no other ↦
      rw (update_other locals t l u other, update_other own t ys u other) (others u hu other)
]
