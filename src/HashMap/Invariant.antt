-- ===== src/HashMap/Invariant.antt =====
-- What keeps the two tables of include/hash_map.h together, and which map they stand for.
use turbokit.Base.{ℕ, zero, suc, ◌+◌, ◌<◌, ◌≡◌, ◌≢◌, true, Option, none, some}
use turbokit.HashMap.Types.{Traits, HashMap, MainEntry, CollisionEntry, masked}
use turbokit.HashMap.Slots.{IsPowerOfTwo, slot, distance}

-- How many of the first `n` entries are in use.
unfoldable pub count_used {ℓ} : {A : Type ℓ} → ℕ → (ℕ → Option A) → ℕ
count_used zero f = 0
count_used (suc n) f = count_used n f + elim (f n) [ none ↦ 0 | some a ↦ 1 ]

module _ {K V : Type 0} where
  -- The chain of a bucket is empty where its main entry is not in use.
  abbrev pub chain_of : Option (MainEntry K V) → ℕ
  chain_of none = 0
  chain_of (some e) = e.chain_length

  -- The bucket that a collision entry belongs to.
  abbrev pub owner : Option (CollisionEntry K V) → Option ℕ
  owner none = none
  owner (some c) = some c.main_index

  -- Neither table holds the key.
  pub record Absent (m : HashMap K V) (k : K) : Type 0 where
    pub main : (b : ℕ) (e : MainEntry K V) → m.main_table b ≡ some e → e.key ≢ k
    pub collision : (i : ℕ) (c : CollisionEntry K V) → m.collision_table i ≡ some c → c.key ≢ k

module _ {K V : Type 0} ⦃t : Traits K⦄ where
  abbrev pub home : HashMap K V → K → ℕ
  home m k = masked m.bucket_count (t.hash k)

  pub record IsTable (m : HashMap K V) : Type 0 where
    pub allocated : m.allocated ≡ true
    pub power : IsPowerOfTwo m.bucket_count
    -- A main entry stands in the bucket of its key; its chain does not go all the way round.
    pub at_home :
        (b : ℕ) (e : MainEntry K V)
        → m.main_table b ≡ some e
        → (b < m.bucket_count) × (home m e.key ≡ b) × (e.chain_length < m.bucket_count)
    -- A collision entry stands within the chain of the bucket of its key.
    pub chained :
        (i : ℕ) (c : CollisionEntry K V)
        → m.collision_table i ≡ some c
        → (i < m.bucket_count)
          × (c.main_index < m.bucket_count)
          × (home m c.key ≡ c.main_index)
          × (distance m.bucket_count c.main_index i < chain_of (m.main_table c.main_index))
    -- A chain ends in an entry of its own.
    pub ends :
        (b d : ℕ)
        → b < m.bucket_count
        → chain_of (m.main_table b) ≡ suc d
        → owner (m.collision_table (slot m.bucket_count b d)) ≡ some b
    -- No key stands twice.
    pub apart :
        (b i : ℕ) (e : MainEntry K V) (c : CollisionEntry K V)
        → m.main_table b ≡ some e
        → m.collision_table i ≡ some c
        → e.key ≢ c.key
    pub unique :
        (i j : ℕ) (c d : CollisionEntry K V)
        → m.collision_table i ≡ some c
        → m.collision_table j ≡ some d
        → c.key ≡ d.key
        → i ≡ j
    pub counted :
        m.element_count
        ≡ count_used m.bucket_count m.main_table + count_used m.bucket_count m.collision_table

  -- The tables hold exactly the entries of the map `f`.
  pub record Represents (m : HashMap K V) (f : K → Option V) : Type 0 where
    pub table : IsTable m
    pub main : (b : ℕ) (e : MainEntry K V) → m.main_table b ≡ some e → f e.key ≡ some e.value
    pub collision :
        (i : ℕ) (c : CollisionEntry K V) → m.collision_table i ≡ some c → f c.key ≡ some c.value
    pub absent : (k : K) → Absent m k → f k ≡ none
