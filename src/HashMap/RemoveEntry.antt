-- ===== src/HashMap/RemoveEntry.antt =====
-- `remove` (include/hash_map.h) of an iterator at a collision entry.
use turbokit.Base.{
  ℕ, suc, ◌+◌, ◌-◌, ◌≡◌, refl, Option, some, ◌==◌, arith, if◌then◌else◌, Bool-cases, Option-cases,
  inl, inr, ◌<◌,
}
use turbokit.HashMap.Types.{
  Traits, HashMap, MainEntry, CollisionEntry, in_collision, Iterator, iterator, masked,
}
use turbokit.HashMap.Iterate.{increment, bucket_of, remove, remove_collision, drop_collision}
use turbokit.HashMap.Slots.{slot, masked-slot}
use turbokit.HashMap.Invariant.{Represents}
use turbokit.HashMap.RemoveCollision.{drop_collision-Represents}
use turbokit.HashMap.Step.{InCollision, increment-InCollision}
use turbokit.HashMap.RemoveMain.{Removed}

module _ {K V : Type 0} where
  remove_collision-chained :
      (b i len index : ℕ) (it next : Iterator) (e : MainEntry K V) (c last : CollisionEntry K V)
      (m : HashMap K V)
      → e.chain_length ≡ suc len
      → masked m.bucket_count (b + len) ≡ index
      → m.collision_table index ≡ some last
      → (if index == i then increment m it else some it) ≡ some next
      → remove_collision b i it c e m ≡ some (drop_collision b i len index e c last m, next)
  unfolding remove_collision drop_collision
  remove_collision-chained b i len index it next e c last m q at hl ran =
      rw (q, remove_collision, at, hl, at, ran, at) refl

module _ {K V : Type 0} ⦃t : Traits K⦄ where
  -- An entry of the collision table: its bucket's entry has a chain with a last entry.
  module _ (m : HashMap K V) (f : K → Option V) (r : Represents m f) (i : ℕ)
      (c : CollisionEntry K V) (h : m.collision_table i ≡ some c) where
    open r use {table}

    owner_chain :
        (e : MainEntry K V) × (len : ℕ) × (last : CollisionEntry K V) × (m.main_table c.main_index
          ≡ some e)
        × (e.chain_length ≡ suc len)
        × (m.collision_table (slot m.bucket_count c.main_index len) ≡ some last)
        × (masked m.bucket_count (c.main_index + len) ≡ slot m.bucket_count c.main_index len)
    owner_chain =
        let (lt, lt2, there, near) = table.chained i c h in
        elim (Option-cases (m.main_table c.main_index)) [
          | inl free ↦ absurd (ground (arith, near))
          | inr (e, he) ↦
              let long : e.chain_length ≡ suc (e.chain_length - 1) = ground (arith, near) in
              let at =
                masked-slot m.bucket_count c.main_index (e.chain_length - 1) table.power lt2
                  (omega (arith, long, (table.at_home c.main_index e he).2)) in
              let own = table.ends c.main_index (e.chain_length - 1) lt2 (ground arith) in
              elim (Option-cases
                (m.collision_table (slot m.bucket_count c.main_index (e.chain_length - 1)))) [
                  | inl none_there ↦ let p = rw none_there at own in cc p
                  | inr (last, hl) ↦ (e, e.chain_length - 1, last, he, long, hl, at)
                ]
        ]

    -- The iterator stays at the entry put there, or steps on where the entry was the last one; the
    -- entries further on are as they were.
    pub data FromCollision (b : Option ℕ) : HashMap K V × Iterator → Type 0 where
      stays :
          {m' : HashMap K V} (c' : CollisionEntry K V)
          → m'.collision_table i ≡ some c'
          → FromCollision b (m', iterator b (some i) (in_collision i))
      steps :
          {m' : HashMap K V} {next : Iterator}
          → ((j : ℕ) → i < j → m'.collision_table j ≡ m.collision_table j)
          → InCollision m b (i + 1) next
          → FromCollision b (m', next)

    stepped :
        (b : Option ℕ) (len index : ℕ) (e : MainEntry K V) (last : CollisionEntry K V)
        → (next : Iterator) × ((if index == i
              then increment m (iterator b (some i) (in_collision i))
              else some (iterator b (some i) (in_collision i)))
            ≡ some next)
          × FromCollision b (drop_collision c.main_index i len index e c last m, next)
    unfolding drop_collision
    stepped b len index e last = elim (Bool-cases (index == i)) [
      | inl q ↦
          let (it, ran, x) = increment-InCollision m b i (in_collision i) (table.chained i c h).0 in
          rw q (it, ran, steps (λ j lt. ground arith) x)
      | inr q ↦ rw q (
        iterator b (some i) (in_collision i),
        refl,
        stays (record c { key = last.key; value = last.value }) (ground arith),
      )
    ]

    pub remove_collision-FromCollision :
        (b : Option ℕ)
        → bucket_of b c ≡ c.main_index
        → (res : HashMap K V × Iterator) × (remove m (iterator b (some i) (in_collision i))
            ≡ some res)
          × Removed m f c.key res.0
          × FromCollision b res
    unfolding remove drop_collision
    remove_collision-FromCollision b own =
        let (e, len, last, he, long, hl, at) = owner_chain in
        let (next, ran, x) = stepped b len (slot m.bucket_count c.main_index len) e last in
        (
          (
            drop_collision c.main_index i len (slot m.bucket_count c.main_index len) e c last m,
            next,
          ),
          rw (h, own, he, own)
              (remove_collision-chained c.main_index i len (slot m.bucket_count c.main_index len) _
                next e c last m long at hl ran),
          record {
            represents =
                drop_collision-Represents m f c.main_index e r he len long last hl i c h refl;
            count = refl;
            buckets = refl;
          },
          x,
        )
