-- ===== src/HashMap/Index.antt =====
-- The members of `HashMap` (include/hash_map.h) that hand their arguments to `try_insert`.
use turbokit.Base.{
  ℕ, ◌+◌, ◌*◌, ◌^◌, ◌<◌, ◌≤◌, ◌≡◌, Bool, Option, none, some, Option-cases, inl, inr, ap, ◌∙◌, arith,
}
use turbokit.HashMap.Types.{Traits, HashMap, Iterator, entry_at}
use turbokit.HashMap.Insert.{Result, ok, ◌>>=◌, try_insert}
use turbokit.HashMap.Lookup.{with_key}
use turbokit.HashMap.Invariant.{Represents}
use turbokit.HashMap.Rehash.{insert_new}
use turbokit.HashMap.Run.{Suffices}
use turbokit.HashMap.TryInsert.{Stands, try_insert-Tried}

abbrev pub value_or {ℓ} : {A : Type ℓ} → A → Option A → A
value_or default none = default
value_or default (some v) = v

module _ {K V : Type 0} ⦃t : Traits K⦄ where
  unfoldable pub emplace : ℕ → HashMap K V → K → V → Result (HashMap K V × Iterator × Bool)
  emplace fuel m k v = try_insert fuel m k v

  -- Of a key and a value.
  unfoldable pub insert : ℕ → HashMap K V → K → V → Result (HashMap K V × Iterator)
  insert fuel m k v = try_insert fuel m k v >>= λ r. ok (r.0, r.1)

  unfoldable pub insert_pair : ℕ → HashMap K V → K × V → Result (HashMap K V × Iterator × Bool)
  insert_pair fuel m x = emplace fuel m x.0 x.1

  -- `operator[]`, with what the value's constructor makes; the entry that the result refers to.
  unfoldable pub index : ℕ → V → HashMap K V → K → Result (HashMap K V × Option (K × V))
  index fuel default m k = try_insert fuel m k default >>= λ r. ok (r.0, entry_at r.0 r.1.value_ptr)

  insert_new-value_or :
      (f : K → Option V) (k : K) (d : V) → insert_new f k d k ≡ some (value_or d (f k))
  insert_new-value_or f k d = elim (Option-cases (f k)) [
    | inl e ↦ rw e (ground (arith, t.equal_iff k k))
    | inr (w, e) ↦ rw (insert_new, e) e
  ]

  -- `operator[]` ends, and refers to the key's value, or to a new one where the key was absent, as
  -- the value of this key in the map that the tables then hold.
  pub index-value_or :
      (high fuel : ℕ) (m : HashMap K V) (f : K → Option V) (k : K) (d : V)
      → Suffices t.entry_size high (m.element_count + 1)
      → Stands m f
      → m.bucket_count < 2 ^ high
      → 16 < 2 ^ high
      → 2 * high + 2 ≤ fuel
      → (m' : HashMap K V) × (index fuel d m k ≡ ok (m', some (k, value_or d (f k))))
        × Represents m' (insert_new f k d)
  unfolding index
  index-value_or high fuel m f k d s st below sixteen hf =
      let (r, ran, tried) = try_insert-Tried high fuel m f k d s st below sixteen hf in
      (
        r.0,
        rw (index, ran)
            (ap (λ o. ok (r.0, o))
              (tried.points ∙ ap (λ o. with_key k o) (insert_new-value_or f k d))),
        tried.represents,
      )
