-- ===== src/HashMap/Rehash.antt =====
-- `resize_table` (include/hash_map.h) moves every element of the old tables into the new ones. The
-- insertions are a parameter here, with what is asked of them.
use turbokit.Base.{
  ℕ, zero, suc, ◌+◌, ◌^◌, ◌<◌, ◌≤◌, ◌≡◌, refl, Bool, true, false, Option, none, some, ◌==◌, arith,
  Bool-cases, Option-cases, inl, inr, ◌∙◌, sym,
}
use turbokit.HashMap.Types.{Traits, HashMap, MainEntry, CollisionEntry, Iterator, entry_at}
use turbokit.HashMap.Insert.{ok, Inserter, rehash, main_pair, collision_pair, fresh}
use turbokit.HashMap.Invariant.{Represents, count_used}
use turbokit.HashMap.Counting.{count_used-none, count_used_mono, count_used-some, count_used_skip}
use turbokit.HashMap.Place.{assign}
use turbokit.HashMap.Lookup.{with_key}
use turbokit.HashMap.Settle.{IsDense}

abbrev pub is_none {ℓ} : {A : Type ℓ} → Option A → Bool
is_none none = true
is_none (some a) = false

module _ {K V : Type 0} ⦃t : Traits K⦄ where
  -- The map after `try_insert`: an old value stays.
  abbrev pub insert_new : (K → Option V) → K → V → K → Option V
  insert_new g k v j = elim (g k) [ none ↦ assign g k v j | some w ↦ g j ]

  -- A dense table for the map `g`, of at least `2 ^ low` and at most `2 ^ high` buckets.
  pub record Good (low high : ℕ) (m : HashMap K V) (g : K → Option V) : Type 0 where
    pub represents : Represents m g
    pub dense : IsDense m
    pub log : ℕ
    pub size : m.bucket_count ≡ 2 ^ log
    pub at_least : low ≤ log
    pub at_most : log ≤ high

  -- What a call of `try_insert` with `k` and `v` does to a table for `g`.
  pub record Inserted (low high : ℕ) (m : HashMap K V) (g : K → Option V) (k : K) (v : V)
      (r : HashMap K V × Iterator × Bool) : Type 0 where
    pub good : Good low high r.0 (insert_new g k v)
    pub grown : r.0.element_count ≤ m.element_count + 1
    pub points : entry_at r.0 r.1.value_ptr ≡ with_key k (insert_new g k v k)
    pub flag : r.2 ≡ is_none (g k)

  -- The insertions into tables of at least `2 ^ low` buckets succeed up to `limit` elements.
  abbrev pub Works : (low high limit : ℕ) → Inserter K V → Type 0
  Works low high limit insert =
      (m : HashMap K V) (g : K → Option V) (k : K) (v : V)
      → Good low high m g
      → m.element_count + 1 ≤ limit
      → (r : HashMap K V × Iterator × Bool) × (insert m k v ≡ ok r) × Inserted low high m g k v r

  abbrev pub Within : (g f : K → Option V) → Type 0
  Within g f = (k : K) (v : V) → g k ≡ some v → f k ≡ some v

  insert_new-Within :
      (g f : K → Option V) (k : K) (v : V) → Within g f → f k ≡ some v → Within (insert_new g k v) f
  insert_new-Within g f k v h e j w q = ground (arith, h j w, t.equal_iff k j)

  Within-insert_new : (g : K → Option V) (k : K) (v : V) → Within g (insert_new g k v)
  Within-insert_new g k v j w q = ground (arith, t.equal_iff k j)

  insert_new_self :
      (g f : K → Option V) (k : K) (v : V) → Within g f → f k ≡ some v → insert_new g k v k ≡ some v
  insert_new_self g f k v h e = elim (Option-cases (g k)) [
    | inl q ↦ ground (arith, t.equal_iff k k)
    | inr (w, q) ↦ ground (arith, h k w q)
  ]

  module _ (low high limit base n : ℕ) (insert : Inserter K V) (works : Works low high limit insert)
      (f : K → Option V) (entry : ℕ → Option (K × V))
      (stored : (i : ℕ) (k : K) (v : V) → entry i ≡ some (k, v) → f k ≡ some v)
      (room : base + count_used n entry ≤ limit) where
    -- The first `i` entries have been put into the table, which holds nothing but what `f` has.
    pub record Moved (i : ℕ) (m : HashMap K V) (g : K → Option V) : Type 0 where
      pub good : Good low high m g
      pub within : Within g f
      pub seen : (j : ℕ) (k : K) (v : V) → j < i → entry j ≡ some (k, v) → g k ≡ some v
      pub count : m.element_count ≤ base + count_used i entry

    pub record Done (g : K → Option V) (m : HashMap K V) : Type 0 where
      pub map : K → Option V
      pub moved : Moved n m map
      pub kept : Within g map

    Moved-none :
        (i : ℕ) (m : HashMap K V) (g : K → Option V)
        → entry i ≡ none
        → Moved i m g
        → Moved (i + 1) m g
    Moved-none i m g e v = record {
      good = v.good;
      within = v.within;
      seen = λ j k w l q. elim (Bool-cases (j == i)) [
        | inl s ↦ let same : j ≡ i = ground arith in cc (rw same at q)
        | inr s ↦ v.seen j k w (ground arith) q
      ];
      count = omega (arith, v.count, count_used_skip i entry e);
    }

    Moved-some :
        (i : ℕ) (m : HashMap K V) (g : K → Option V) (k : K) (v : V)
        (r : HashMap K V × Iterator × Bool)
        → entry i ≡ some (k, v)
        → Moved i m g
        → Inserted low high m g k v r
        → Moved (i + 1) r.0 (insert_new g k v)
    Moved-some i m g k v r e mv ins = record {
      good = ins.good;
      within = insert_new-Within g f k v mv.within (stored i k v e);
      seen = λ j k' w l q. elim (Bool-cases (j == i)) [
        | inl s ↦
            let same : j ≡ i = ground arith in
            let self = insert_new_self g f k v mv.within (stored i k v e) in
            let at_i = rw same at q in
            let key : k' ≡ k = cc in let value : w ≡ v = cc in rw (key, value) self
        | inr s ↦ Within-insert_new g k v k' w (mv.seen j k' w (ground arith) q)
      ];
      count = omega (arith, mv.count, ins.grown, count_used-some i entry (k, v) e);
    }

    pub rehash_lem :
        (rounds i : ℕ) (m : HashMap K V) (g : K → Option V)
        → i + rounds ≡ n
        → Moved i m g
        → (m' : HashMap K V) × (rehash insert entry rounds i m ≡ ok m') × Done g m'
    unfolding rehash
    rehash_lem zero i m g h mv = (
      m,
      refl,
      record { map = g; moved = let e : n ≡ i = omega arith in rw e mv; kept = λ k v q. q },
    )
    rehash_lem (suc rounds) i m g h mv = elim (Option-cases (entry i)) [
      | inl e ↦ rw (e, rehash) (rehash_lem rounds (i + 1) m g (omega arith) (Moved-none i m g e mv))
      | inr ((k, v), e) ↦
          let count = count_used-some i entry (k, v) e in
          let (r, ran, ins) =
            works m g k v mv.good
              (omega (arith, mv.count, room, count_used_mono (i + 1) n entry (omega arith))) in
          let (m', rest, done) =
            rehash_lem rounds (i + 1) r.0 (insert_new g k v) (omega arith)
              (Moved-some i m g k v r e mv ins) in
          (
            m',
            rw (e, rehash, ran) rest,
            record {
              map = done.map;
              moved = done.moved;
              kept = λ j w q. done.kept j w (Within-insert_new g k v j w q);
            },
          )
    ]

  -- Everything in the tables of `m` has been put into a table for `g`, and nothing else.
  pub same_map :
      (m : HashMap K V) (f g : K → Option V)
      → Represents m f
      → Within g f
      → ((i : ℕ) (k : K) (v : V) → i < m.bucket_count → main_pair m i ≡ some (k, v) → g k ≡ some v)
      → ((i : ℕ) (k : K) (v : V)
          → i < m.bucket_count
          → collision_pair m i ≡ some (k, v)
          → g k ≡ some v)
      → (k : K) → g k ≡ f k
  same_map m f g r within mains collisions k = elim (Option-cases (g k)) [
    | inr (v, e) ↦ e ∙ sym (within k v e)
    | inl e ↦
        e
        ∙ sym (
            r.absent k (record {
              main = λ b c h same.
                  ground (arith, mains b c.key c.value (r.table.at_home b c h).0 (rw h));
              collision = λ i c h same.
                  ground (arith, collisions i c.key c.value (r.table.chained i c h).0 (rw h));
            }))
  ]

  pub main_pair-stored :
      (m : HashMap K V) (f : K → Option V)
      → Represents m f
      → (i : ℕ) (k : K) (v : V) → main_pair m i ≡ some (k, v)
      → f k ≡ some v
  main_pair-stored m f r i k v h = elim (Option-cases (m.main_table i)) [
    | inl e ↦ cc (rw e at h)
    | inr (c, e) ↦
        let pair = rw e at h in
        let key : c.key ≡ k = cc pair in
        let value : c.value ≡ v = cc pair in rw (key, value) at (r.main i c e)
  ]

  pub collision_pair-stored :
      (m : HashMap K V) (f : K → Option V)
      → Represents m f
      → (i : ℕ) (k : K) (v : V) → collision_pair m i ≡ some (k, v)
      → f k ≡ some v
  collision_pair-stored m f r i k v h = elim (Option-cases (m.collision_table i)) [
    | inl e ↦ cc (rw e at h)
    | inr (c, e) ↦
        let pair = rw e at h in
        let key : c.key ≡ k = cc pair in
        let value : c.value ≡ v = cc pair in rw (key, value) at (r.collision i c e)
  ]

  pub count-main_pair :
      (m : HashMap K V) (n : ℕ) → count_used n (main_pair m) ≡ count_used n m.main_table
  unfolding count_used
  count-main_pair m zero = refl
  count-main_pair m (suc n) = ground (arith, count-main_pair m n)

  pub count-collision_pair :
      (m : HashMap K V) (n : ℕ) → count_used n (collision_pair m) ≡ count_used n m.collision_table
  unfolding count_used
  count-collision_pair m zero = refl
  count-collision_pair m (suc n) = ground (arith, count-collision_pair m n)

  -- The empty tables of `2 ^ log` buckets.
  pub fresh-Good :
      (low high log : ℕ)
      → low ≤ log
      → log ≤ high
      → Good low high (fresh {K = K} {V = V} (2 ^ log)) (λ k. none)
  fresh-Good low high log l h = record {
    represents = record {
      table = record {
        allocated = refl;
        power = (log, refl);
        at_home = λ b e q. cc;
        chained = λ i c q. cc;
        ends = λ b d lt q. absurd (omega arith);
        apart = λ b i e c q. cc;
        unique = λ i j c d q. cc;
        counted = omega (
          arith,
          count_used-none (MainEntry K V) (2 ^ log),
          count_used-none (CollisionEntry K V) (2 ^ log),
        );
      };
      main = λ b e q. cc;
      collision = λ i c q. cc;
      absent = λ k a. refl;
    };
    dense = λ b d lt q. absurd (omega arith);
    log = log;
    size = refl;
    at_least = l;
    at_most = h;
  }
