-- ===== src/HashMap/TryInsert.antt =====
-- What a call of `try_insert` (include/hash_map.h) comes to, from any state of the table.
use turbokit.Base.{
  ℕ, zero, suc, ◌+◌, ◌-◌, ◌*◌, ◌^◌, ◌<◌, ◌≤◌, ◌≡◌, refl, Bool, true, false, Option, none, ltb,
  arith, ◌∙◌, sym, ap, Bool-cases, inl, inr, lt_of_two_pow-lt,
}
use turbokit.HashMap.Types.{Traits, HashMap, Iterator, new, entry_at}
use turbokit.HashMap.Find.{find}
use turbokit.HashMap.Insert.{
  Result, ok, ◌>>=◌, reserve, resize_table, grow, start, resized, run, try_insert, fresh, Placing,
}
use turbokit.HashMap.Invariant.{Represents}
use turbokit.HashMap.Lookup.{find-Found, find-entry_at, with_key}
use turbokit.HashMap.Settle.{Settled, done, enlarge, place-Settled}
use turbokit.HashMap.Rehash.{Inserted, insert_new, is_none, fresh-Good}
use turbokit.HashMap.Run.{Suffices, insert_new-some, insert_new-none, conclude}
use turbokit.HashMap.Start.{miss, after, Looked, present, missing, look, levels}

module _ {K V : Type 0} ⦃t : Traits K⦄ where
  -- A map object: no tables yet, or tables that hold the map `f`.
  pub data Stands : HashMap K V → (K → Option V) → Type 0 where
    empty : Stands new (λ k. none)
    tables : {m : HashMap K V} {f : K → Option V} → Represents m f → Stands m f

  -- The result of a call: the tables, what the iterator points at, and whether `k` is new.
  pub record Tried (f : K → Option V) (k : K) (v : V) (r : HashMap K V × Iterator × Bool)
      : Type 0 where
    pub represents : Represents r.0 (insert_new f k v)
    pub points : entry_at r.0 r.1.value_ptr ≡ with_key k (insert_new f k v k)
    pub flag : r.2 ≡ is_none (f k)

  abbrev Ends : (K → Option V) → K → V → Result (HashMap K V × Iterator × Bool) → Type 0
  Ends f k v res = (r : HashMap K V × Iterator × Bool) × (res ≡ ok r) × Tried f k v r

  Inserted-Tried :
      (low high : ℕ) (m : HashMap K V) (f : K → Option V) (k : K) (v : V)
      (r : HashMap K V × Iterator × Bool)
      → Inserted low high m f k v r
      → Tried f k v r
  Inserted-Tried low high m f k v r i = record {
    represents = i.good.represents;
    points = i.points;
    flag = i.flag;
  }

  module _ (high : ℕ) (m : HashMap K V) (f : K → Option V) (k : K) (v : V)
      (s : Suffices t.entry_size high (m.element_count + 1)) (x : Represents m f) (log : ℕ)
      (size : m.bucket_count ≡ 2 ^ log) (lt : log < high) (out : f k ≡ none) where
    abbrev l : ℕ
    l = high - log

    larger :
        (fuel q : ℕ)
        → 2 * high ≤ fuel
        → m.bucket_count < q
        → q ≤ 2 ^ high
        → m.element_count < q
        → Ends f k v (reserve (run fuel start) q m >>= λ m1. run fuel resized m1 k v)
    larger fuel q hf above fits room =
        let (more, ag) = levels high (m.element_count + 1) s l in
        let (r, ran, i) =
          more fuel q (omega arith) m f k v x log size lt (omega arith) above fits room
            (omega arith) out in
        (r, ran, Inserted-Tried (log + 1) high m f k v r i)

    concluded :
        (fuel : ℕ)
        → 2 * high ≤ fuel
        → m.bucket_count < 2 ^ high
        → m.element_count < m.bucket_count
        → {p : Placing K V} → Settled m f k v p
        → Ends f k v (conclude high (m.element_count + 1) s fuel m k v p)
    concluded fuel hf below room (done {m'} {it} r same count at dense) = (
      (m', it, true),
      refl,
      record {
        represents = rw (insert_new-none f k v out) r;
        points = at ∙ ground (arith, t.equal_iff k k);
        flag = rw out;
      },
    )
    concluded fuel hf below room (enlarge never) =
        larger fuel (m.bucket_count + 1) hf (omega arith) (omega arith) (omega arith)

    settled :
        (fuel : ℕ)
        → 2 * high + 1 ≤ fuel
        → m.bucket_count < 2 ^ high
        → m.element_count < m.bucket_count
        → Ends f k v (run fuel resized m k v)
    unfolding run
    settled zero hf below room = absurd (omega arith)
    settled (suc fuel) hf below room =
        concluded fuel (omega arith) below room (place-Settled m f k v x room out)

    missed :
        (fuel : ℕ) → 2 * high + 1 ≤ fuel → m.bucket_count < 2 ^ high → Ends f k v (miss fuel m k v)
    missed fuel hf below = elim (Bool-cases (ltb m.bucket_count (m.element_count + 1))) [
      | inl full ↦ rw full (
          larger fuel (m.element_count + 1) (omega arith) (ground arith) (omega (arith, s.load))
            (omega arith))
      | inr room ↦ rw room (settled fuel hf below (ground arith))
    ]

  looked :
      (high fuel : ℕ) (m : HashMap K V) (f : K → Option V) (k : K) (v : V)
      → Suffices t.entry_size high (m.element_count + 1)
      → Represents m f
      → m.bucket_count < 2 ^ high
      → 2 * high + 1 ≤ fuel
      → Looked m f k fuel v (find m k)
      → Ends f k v (after fuel m k v (find m k))
  looked high fuel m f k v s x below hf (present w e go) = (
    (m, find m k, false),
    go,
    record {
      represents = rw (insert_new-some f k v w e) x;
      points = find-entry_at m f k x ∙ ap (λ h. with_key k (h k)) (sym (insert_new-some f k v w e));
      flag = rw e;
    },
  )
  looked high fuel m f k v s x below hf (missing e go) =
      let (log, size) = x.table.power in
      let lt = lt_of_two_pow-lt log high (rw size at below) in
      rw go (missed high m f k v s x log size lt e fuel hf below)

  in_tables :
      (high fuel : ℕ) (m : HashMap K V) (f : K → Option V) (k : K) (v : V)
      → Suffices t.entry_size high (m.element_count + 1)
      → Represents m f
      → m.bucket_count < 2 ^ high
      → 2 * high + 2 ≤ fuel
      → Ends f k v (run fuel start m k v)
  unfolding run
  in_tables high zero m f k v s x below hf = absurd (omega arith)
  in_tables high (suc fuel) m f k v s x below hf = simp x.table.allocated (
      looked high fuel m f k v s x below (omega arith)
        (look m f k fuel v x (find-Found m k x.table)))

  pub reserve-new :
      (insert : HashMap K V → K → V → Result (HashMap K V × Iterator × Bool))
      → reserve insert 16 new ≡ ok (fresh 16)
  unfolding reserve resize_table grow
  reserve-new insert = refl

  -- The first insertion makes tables of 16 buckets.
  in_new :
      (high fuel : ℕ) (k : K) (v : V)
      → Suffices t.entry_size high 1
      → 16 < 2 ^ high
      → 2 * high + 2 ≤ fuel
      → Ends (λ j. none) k v (run fuel start new k v)
  unfolding run
  in_new high zero k v s below hf = absurd (omega arith)
  in_new high (suc fuel) k v s below hf =
      let x = (fresh-Good 4 4 4 (omega arith) (omega arith)).represents in
      rw (reserve-new (run fuel start)) (
        looked high fuel (fresh 16) (λ j. none) k v s x below (omega arith)
          (look (fresh 16) (λ j. none) k fuel v x (find-Found (fresh 16) k x.table)))

  -- `try_insert` ends, with as much fuel as twice the logarithm of a bucket count that suffices, and
  -- returns tables that hold the map with the key at the new value where it was absent, and the old
  -- map where it was there; an iterator to the key's entry; and whether the key was absent. This
  -- holds for a map without tables and for any tables of fewer than that many buckets.
  pub try_insert-Tried :
      (high fuel : ℕ) (m : HashMap K V) (f : K → Option V) (k : K) (v : V)
      → Suffices t.entry_size high (m.element_count + 1)
      → Stands m f
      → m.bucket_count < 2 ^ high
      → 16 < 2 ^ high
      → 2 * high + 2 ≤ fuel
      → (r : HashMap K V × Iterator × Bool) × (try_insert fuel m k v ≡ ok r) × Tried f k v r
  unfolding try_insert
  try_insert-Tried high fuel m f k v s empty below sixteen hf = in_new high fuel k v s sixteen hf
  try_insert-Tried high fuel m f k v s (tables x) below sixteen hf =
      in_tables high fuel m f k v s x below hf
