-- ===== src/HashMap/Iterate.antt =====
-- `begin`, `operator++`, `remove` and `clear` of include/hash_map.h.
use turbokit.Base.{ℕ, zero, suc, ◌+◌, ◌-◌, Bool, false, Option, none, some, ◌==◌, if◌then◌else◌}
use turbokit.HashMap.Types.{
  Traits, HashMap, MainEntry, CollisionEntry, null, in_main, in_collision, Iterator, iterator, end,
  update, masked,
}
use turbokit.HashMap.Find.{find}

-- The first index in use from `i` on, among the next `rounds`.
unfoldable pub scan {ℓ} : {A : Type ℓ} → (ℕ → Option A) → (rounds i : ℕ) → Option ℕ
scan f zero i = none
scan f (suc rounds) i = elim (f i) [ none ↦ scan f rounds (i + 1) | some a ↦ some i ]

module _ {K V : Type 0} where
  unfoldable pub begin : HashMap K V → Iterator
  begin m =
      if m.allocated
      then elim (scan m.main_table m.bucket_count 0) [
        | some i ↦ iterator (some i) none (in_main i)
        | none ↦ elim (scan m.collision_table m.bucket_count 0) [
          | some i ↦ iterator (some i) (some i) (in_collision i)
          | none ↦ end
        ]
      ]
      else end

  -- The second loop of `operator++`. Past the last entry the indices stay and `value_ptr` is null.
  unfoldable pub next_collision :
      HashMap K V → ℕ → (bucket_index : Option ℕ) → (i : ℕ) → Option Iterator
  next_collision m zero b i = none
  next_collision m (suc fuel) b i =
      if i == m.bucket_count - 1
      then some (iterator b (some i) null)
      else elim (m.collision_table (i + 1)) [
        | none ↦ next_collision m fuel b (i + 1)
        | some c ↦ some (iterator b (some (i + 1)) (in_collision (i + 1)))
      ]

  -- The first loop, which goes over to the collision table behind the last bucket.
  unfoldable pub next_main : HashMap K V → ℕ → (i : ℕ) → Option Iterator
  next_main m zero i = none
  next_main m (suc fuel) i =
      if i == m.bucket_count - 1
      then elim (m.collision_table 0) [
        | none ↦ next_collision m m.bucket_count none 0
        | some c ↦ some (iterator none (some 0) (in_collision 0))
      ]
      else elim (m.main_table (i + 1)) [
        | none ↦ next_main m fuel (i + 1)
        | some e ↦ some (iterator (some (i + 1)) none (in_main (i + 1)))
      ]

  -- An iterator at no index of the tables is not stepped: the source would run out of the tables.
  unfoldable pub increment : HashMap K V → Iterator → Option Iterator
  increment m it = elim it.collision_index [
    | some i ↦ next_collision m m.bucket_count it.bucket_index i
    | none ↦ elim it.bucket_index [ none ↦ none | some b ↦ next_main m m.bucket_count b ]
  ]

  abbrev pub owned : Option (CollisionEntry K V) → ℕ → Bool
  owned none b = false
  owned (some c) b = c.main_index == b

  -- The loop that shortens a chain to its last own entry.
  unfoldable pub shrink : (n : ℕ) → (ℕ → Option (CollisionEntry K V)) → (b chain_len : ℕ) → ℕ
  shrink n table b zero = 0
  shrink n table b (suc chain_len) =
      if owned (table (masked n (b + chain_len))) b
      then suc chain_len
      else shrink n table b chain_len

  -- The entry leaves the main table, with no chain behind it.
  unfoldable pub drop_alone : (b : ℕ) → HashMap K V → HashMap K V
  drop_alone b m = record m {
    element_count = m.element_count - 1;
    main_table = update m.main_table b none;
  }

  -- The last entry of the chain, at `index`, takes the place of the main entry.
  unfoldable pub drop_main :
      (b chain_len index : ℕ) → CollisionEntry K V → HashMap K V → HashMap K V
  drop_main b chain_len index last m =
      let table = update m.collision_table index none in
      record m {
        element_count = m.element_count - 1;
        main_table = update m.main_table b (
            some (record {
              key = last.key;
              value = last.value;
              chain_length = shrink m.bucket_count table b chain_len;
            }));
        collision_table = table;
      }

  -- The last entry of the chain, at `index`, takes the place of the entry at `i`.
  unfoldable pub drop_collision :
      (b i chain_len index : ℕ)
      → MainEntry K V
      → (c last : CollisionEntry K V) → HashMap K V
      → HashMap K V
  drop_collision b i chain_len index e c last m =
      let moved =
        if index == i
        then m.collision_table
        else update m.collision_table i (some (record c { key = last.key; value = last.value })) in
      let table = update moved index none in
      record m {
        element_count = m.element_count - 1;
        main_table =
            update m.main_table b
              (some (record e { chain_length = shrink m.bucket_count table b chain_len }));
        collision_table = table;
      }

  -- With nothing where the source reads an entry, the result is `none`.
  unfoldable pub remove_main :
      (b : ℕ) → Iterator → MainEntry K V → HashMap K V → Option (HashMap K V × Iterator)
  remove_main b it e m = elim e.chain_length [
    | zero ↦ elim (increment m it) [ none ↦ none | some next ↦ some (drop_alone b m, next) ]
    | suc chain_len ↦
        let index = masked m.bucket_count (b + chain_len) in
        elim (m.collision_table index) [
          | none ↦ none
          | some last ↦ some (drop_main b chain_len index last m, it)
        ]
  ]

  unfoldable pub remove_collision :
      (b i : ℕ)
      → Iterator
      → CollisionEntry K V
      → MainEntry K V
      → HashMap K V
      → Option (HashMap K V × Iterator)
  remove_collision b i it c e m = elim e.chain_length [
    | zero ↦ none
    | suc chain_len ↦
        let index = masked m.bucket_count (b + chain_len) in
        elim (m.collision_table index) [
          | none ↦ none
          | some last ↦ elim (if index == i then increment m it else some it) [
            | none ↦ none
            | some next ↦ some (drop_collision b i chain_len index e c last m, next)
          ]
        ]
  ]

  -- A bucket index that is the invalid marker is read from the entry.
  abbrev pub bucket_of : Option ℕ → CollisionEntry K V → ℕ
  bucket_of none c = c.main_index
  bucket_of (some b) c = b

  unfoldable pub remove : HashMap K V → Iterator → Option (HashMap K V × Iterator)
  remove m it = elim it.collision_index [
    | none ↦ elim it.bucket_index [
      | none ↦ none
      | some b ↦ elim (m.main_table b) [ none ↦ none | some e ↦ remove_main b it e m ]
    ]
    | some i ↦ elim (m.collision_table i) [
      | none ↦ none
      | some c ↦
          let b = bucket_of it.bucket_index c in
          elim (m.main_table b) [ none ↦ none | some e ↦ remove_collision b i it c e m ]
    ]
  ]

  -- The loop of `clear`, with the number of removals as fuel.
  unfoldable pub clear_loop : ℕ → HashMap K V → Iterator → Option (HashMap K V)
  clear_loop zero m it = elim it.value_ptr [ null ↦ some m | _ ↦ none ]
  clear_loop (suc fuel) m it = elim it.value_ptr [
    | null ↦ some m
    | _ ↦ elim (remove m it) [ none ↦ none | some (m', next) ↦ clear_loop fuel m' next ]
  ]

  unfoldable pub clear : HashMap K V → Option (HashMap K V)
  clear m = clear_loop m.element_count m (begin m)

module _ {K V : Type 0} ⦃t : Traits K⦄ where
  unfoldable pub remove_key : HashMap K V → K → Option (HashMap K V)
  remove_key m key =
      let it = find m key in
      elim it.value_ptr [
        | null ↦ some m
        | _ ↦ elim (remove m it) [ none ↦ none | some (m', next) ↦ some m' ]
      ]
