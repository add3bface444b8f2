-- ===== src/HashMap/Types.antt =====
-- The state of `HashMap` (include/hash_map.h) and of its iterators.
use Prim.Native.Nat.{bit_and}
use turbokit.Base.{
  ℕ, ◌-◌, ◌%◌, ◌≡◌, ◌↔◌, refl, Bool, true, false, Option, none, some, Option-cases, inl, inr, ◌==◌,
  if◌then◌else◌, arith,
}
pub use turbokit.Base.{update}

-- The template arguments: `HashFunction`, `EqualityFunction` (by default `std::equal_to`, which is
-- the equality of the key type) and `sizeof(MainEntry)`.
pub record Traits (K : Type 0) : Type 0 where
  pub hash : K → ℕ
  pub equal : K → K → Bool
  pub equal_iff : (a b : K) → (equal a b ≡ true) ↔ (a ≡ b)
  pub entry_size : ℕ

pub record MainEntry (K V : Type 0) : Type 0 where
  pub key : K
  pub value : V
  pub chain_length : ℕ

pub record CollisionEntry (K V : Type 0) : Type 0 where
  pub key : K
  pub value : V
  pub main_index : ℕ

-- An entry whose `chain_length` or `main_index` is the invalid marker holds no key and no value: it
-- is `none`. `allocated` tells whether the two tables are there at all (`main_table != nullptr`).
pub record HashMap (K V : Type 0) : Type 0 where
  pub bucket_count : ℕ
  pub element_count : ℕ
  pub allocated : Bool
  pub main_table : ℕ → Option (MainEntry K V)
  pub collision_table : ℕ → Option (CollisionEntry K V)

-- Where `value_ptr` points.
pub data Place : Type 0 where
  null : Place
  in_main : ℕ → Place
  in_collision : ℕ → Place

-- An index that is the invalid marker is `none`.
pub record Iterator : Type 0 where
  pub bucket_index : Option ℕ
  pub collision_index : Option ℕ
  pub value_ptr : Place

abbrev pub iterator : Option ℕ → Option ℕ → Place → Iterator
iterator b c p = record { bucket_index = b; collision_index = c; value_ptr = p }

-- `end()`
abbrev pub end : Iterator
end = iterator (some 0) (some 0) null

-- `x & mask` with `mask = bucket_count - 1`.
unfoldable pub masked : (bucket_count x : ℕ) → ℕ
masked bucket_count x = bit_and x (bucket_count - 1)

module _ {K V : Type 0} where
  -- The default constructor.
  abbrev pub new : HashMap K V
  new = record {
    bucket_count = 0;
    element_count = 0;
    allocated = false;
    main_table = λ i. none;
    collision_table = λ i. none;
  }

  -- The key and the value of the entry whose value `value_ptr` points to.
  unfoldable pub entry_at : HashMap K V → Place → Option (K × V)
  entry_at m null = none
  entry_at m (in_main i) = elim (m.main_table i) [ none ↦ none | some e ↦ some (e.key, e.value) ]
  entry_at m (in_collision i) = elim (m.collision_table i) [
    | none ↦ none
    | some e ↦ some (e.key, e.value)
  ]

-- How the compiler lays out an entry: `sizeof(KeyType)` and `alignof(ValueType)`, and what would be
-- read as a key from the bytes in front of a value where these are not the key's.
pub record Layout (K : Type 0) : Type 0 where
  pub key_size : ℕ
  pub value_alignment : ℕ
  pub stray : Place → K

-- The bytes between the key, at the start of an entry, and the value.
abbrev pub padding : {K : Type 0} → Layout K → ℕ
padding l = (l.value_alignment - l.key_size % l.value_alignment) % l.value_alignment

module _ {K V : Type 0} where
  -- `operator*`, which reads the key `sizeof(KeyType)` bytes in front of the value.
  unfoldable pub deref : Layout K → HashMap K V → Place → Option (K × V)
  deref l m p = elim (entry_at m p) [
    | none ↦ none
    | some e ↦ some ((if padding l == 0 then e.0 else l.stray p), e.1)
  ]

  pub deref-entry_at :
      (l : Layout K) (m : HashMap K V) (p : Place) → padding l ≡ 0 → deref l m p ≡ entry_at m p
  unfolding deref
  deref-entry_at l m p packed =
      let same : (padding l == 0) ≡ true = ground arith in
      elim (Option-cases (entry_at m p)) [
        | inl e ↦ rw (deref, e) refl
        | inr (x, e) ↦ rw (deref, e, same) refl
      ]
