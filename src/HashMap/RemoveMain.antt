-- ===== src/HashMap/RemoveMain.antt =====
-- `remove` (include/hash_map.h) of an iterator at a main entry.
use turbokit.Base.{
  ℕ, zero, suc, ◌+◌, ◌-◌, ◌≡◌, refl, Option, none, some, arith, Option-cases, inl, inr,
}
use turbokit.HashMap.Types.{
  Traits, HashMap, MainEntry, CollisionEntry, in_main, in_collision, Iterator, iterator, masked,
}
use turbokit.HashMap.Iterate.{increment, bucket_of, remove, remove_main, drop_alone, drop_main}
use turbokit.HashMap.Slots.{slot, masked-slot}
use turbokit.HashMap.Invariant.{Represents}
use turbokit.HashMap.Remove.{erase, b-lt, drop_alone-Represents, drop_main-Represents}
use turbokit.HashMap.Step.{InMain, increment-InMain}

module _ {K V : Type 0} where
  -- The iterator is at an entry, with the key `k`. At a collision entry it has no bucket index, as from
  -- `operator++`, or that of the entry's chain.
  pub data At (m : HashMap K V) : K → Iterator → Type 0 where
    main :
        (b : ℕ) (e : MainEntry K V)
        → m.main_table b ≡ some e
        → At m e.key (iterator (some b) none (in_main b))
    collision :
        (b : Option ℕ) (i : ℕ) (c : CollisionEntry K V)
        → m.collision_table i ≡ some c
        → bucket_of b c ≡ c.main_index
        → At m c.key (iterator b (some i) (in_collision i))

  remove_main-alone :
      (b : ℕ) (it next : Iterator) (e : MainEntry K V) (m : HashMap K V)
      → e.chain_length ≡ 0
      → increment m it ≡ some next
      → remove_main b it e m ≡ some (drop_alone b m, next)
  unfolding remove_main
  remove_main-alone b it next e m q ran = rw (q, remove_main, ran) refl

  remove_main-chained :
      (b len index : ℕ) (it : Iterator) (e : MainEntry K V) (last : CollisionEntry K V)
      (m : HashMap K V)
      → e.chain_length ≡ suc len
      → masked m.bucket_count (b + len) ≡ index
      → m.collision_table index ≡ some last
      → remove_main b it e m ≡ some (drop_main b len index last m, it)
  unfolding remove_main
  remove_main-chained b len index it e last m q at hl = rw (q, remove_main, at, hl, at) refl

module _ {K V : Type 0} ⦃t : Traits K⦄ where
  -- What a removal leaves.
  pub record Removed (m : HashMap K V) (f : K → Option V) (k : K) (m' : HashMap K V) : Type 0 where
    pub represents : Represents m' (erase f k)
    pub count : m'.element_count ≡ m.element_count - 1
    pub buckets : m'.bucket_count ≡ m.bucket_count

  -- An entry of the main table.
  module _ (m : HashMap K V) (f : K → Option V) (r : Represents m f) (b : ℕ) (e : MainEntry K V)
      (h : m.main_table b ≡ some e) where
    open r use {table}

    -- Behind it `operator++` leads to the next entry where it had no chain, and it stays otherwise.
    pub data FromMain : HashMap K V × Iterator → Type 0 where
      alone :
          {next : Iterator}
          → e.chain_length ≡ 0
          → InMain m (b + 1) next
          → FromMain (drop_alone b m, next)
      chained :
          (len : ℕ) (last : CollisionEntry K V)
          → FromMain (
            drop_main b len (slot m.bucket_count b len) last m,
            iterator (some b) none (in_main b),
          )

    pub remove_main-FromMain :
        (res : HashMap K V × Iterator) × (remove m (iterator (some b) none (in_main b)) ≡ some res)
        × Removed m f e.key res.0
        × FromMain res
    unfolding remove drop_alone drop_main
    remove_main-FromMain = rw h (chain_cases e.chain_length refl)
      where
        chain_cases :
            (len : ℕ)
            → e.chain_length ≡ len
            → (res : HashMap K V × Iterator) × (remove_main b
                  (iterator (some b) none (in_main b))
                  e
                  m
                ≡ some res)
              × Removed m f e.key res.0
              × FromMain res
        chain_cases zero q =
            let (it, ran, x) = increment-InMain m b (in_main b) (b-lt m f b e r h) in
            (
              (drop_alone b m, it),
              remove_main-alone b _ it e m q ran,
              record {
                represents = drop_alone-Represents m f b e r h q;
                count = refl;
                buckets = refl;
              },
              alone q x,
            )
        chain_cases (suc len) q =
            let lt = (table.at_home b e h) in
            let at = masked-slot m.bucket_count b len table.power lt.0 (omega (arith, q, lt.2)) in
            let own = table.ends b len lt.0 (ground arith) in
            elim (Option-cases (m.collision_table (slot m.bucket_count b len))) [
              | inl none_there ↦ let p = rw none_there at own in cc p
              | inr (last, hl) ↦ (
                (
                  drop_main b len (slot m.bucket_count b len) last m,
                  iterator (some b) none (in_main b),
                ),
                remove_main-chained b len _ _ e last m q at hl,
                record {
                  represents = drop_main-Represents m f b e r h len q last hl;
                  count = refl;
                  buckets = refl;
                },
                chained len last,
              )
            ]
