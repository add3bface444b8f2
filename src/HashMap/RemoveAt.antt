-- ===== src/HashMap/RemoveAt.antt =====
-- `remove` (include/hash_map.h), by iterator and by key.
use turbokit.Base.{ℕ, ◌≡◌, refl, Option, none, some, arith, inl, inr, fun_ext, ◌⊎◌, ◌∙◌}
use turbokit.HashMap.Types.{Traits, HashMap, MainEntry, CollisionEntry, null, Iterator, update}
use turbokit.HashMap.Iterate.{shrink, remove, remove_key, drop_alone, drop_main}
use turbokit.HashMap.Slots.{slot}
use turbokit.HashMap.Invariant.{home, Represents}
use turbokit.HashMap.Lookup.{Found, main_hit, collision_hit, vacant, behind, find-Found}
use turbokit.HashMap.Remove.{erase}
use turbokit.HashMap.RemoveMain.{
  At, main, collision, Removed, FromMain, alone, chained, remove_main-FromMain,
}
use turbokit.HashMap.RemoveEntry.{FromCollision, stays, steps, remove_collision-FromCollision}
use turbokit.HashMap.Step.{at, past, over}

-- An iterator that `begin` and `operator++` make: one to a collision entry has no bucket index.
abbrev pub Stepping : Iterator → Type 0
Stepping it = (it.collision_index ≡ none) ⊎ (it.bucket_index ≡ none)

module _ {K V : Type 0} where
  -- The end, or such an iterator to an entry.
  pub data Next (m : HashMap K V) : Iterator → Type 0 where
    stop : {it : Iterator} → it.value_ptr ≡ null → Next m it
    entry : {it : Iterator} (k : K) → At m k it → Stepping it → Next m it

module _ {K V : Type 0} ⦃t : Traits K⦄ where
  -- `remove` of an iterator at an entry, which at a collision entry has no bucket index or that of the
  -- chain in which the entry is, takes the entry's key from the map, and the count down by one, in
  -- tables of as many buckets.
  pub remove-Removed :
      (m : HashMap K V) (f : K → Option V) (k : K) (it : Iterator)
      → Represents m f
      → At m k it
      → (res : HashMap K V × Iterator) × (remove m it ≡ some res) × Removed m f k res.0
  remove-Removed m f k _ r (main b e h) =
      let (res, ran, removed, next) = remove_main-FromMain m f r b e h in (res, ran, removed)
  remove-Removed m f k _ r (collision b i c h own) =
      let (res, ran, removed, next) = remove_collision-FromCollision m f r i c h b own in
      (res, ran, removed)

  Absent_erase : (f : K → Option V) (k : K) → f k ≡ none → erase f k ≡ f
  Absent_erase f k e = fun_ext (λ j. ground (arith, t.equal_iff k j))

  remove-Found :
      (m : HashMap K V) (f : K → Option V) (k : K) {it : Iterator}
      → Represents m f
      → Found m k it
      → (m' : HashMap K V) × (elim it.value_ptr [
        | null ↦ some m
        | _ ↦ elim (remove m it) [ none ↦ none | some (m'', next) ↦ some m'' ]
      ]
          ≡ some m')
        × Represents m' (erase f k)
  remove-Found m f k r (main_hit e h same) =
      let (res, ran, removed, next) = remove_main-FromMain m f r (home m k) e h in
      (res.0, rw ran refl, rw same at removed.represents)
  remove-Found m f k r (collision_hit i c h same) =
      let there = (r.table.chained i c h).2 in
      let own : home m k ≡ c.main_index = rw same at there in
      let (res, ran, removed, next) =
        remove_collision-FromCollision m f r i c h (some (home m k)) own in
      (res.0, rw ran refl, rw same at removed.represents)
  remove-Found m f k r (vacant h a) = (m, refl, rw (Absent_erase f k (r.absent k a)) r)
  remove-Found m f k r (behind e h a) = (m, refl, rw (Absent_erase f k (r.absent k a)) r)

  -- `remove` by key ends, and the tables then hold the map without the key, whether it was there or
  -- not.
  pub remove_key-Represents :
      (m : HashMap K V) (f : K → Option V) (k : K)
      → Represents m f
      → (m' : HashMap K V) × (remove_key m k ≡ some m') × Represents m' (erase f k)
  unfolding remove_key
  remove_key-Represents m f k r = remove-Found m f k r (find-Found m k r.table)

  FromMain-Next :
      (m : HashMap K V) (f : K → Option V) (r : Represents m f) (b : ℕ) (e : MainEntry K V)
      (h : m.main_table b ≡ some e) {res : HashMap K V × Iterator}
      → FromMain m f r b e h res
      → Next res.0 res.1
  unfolding drop_alone drop_main
  FromMain-Next m f r b e h (alone q (at j e' l u h' g)) =
      entry e'.key (main j e' (ground arith)) (inl refl)
  FromMain-Next m f r b e h (alone q (over g (at j c l u h' g'))) =
      entry c.key (collision none j c h' refl) (inr refl)
  FromMain-Next m f r b e h (alone q (over g (past j g'))) = stop refl
  FromMain-Next m f r b e h (chained len last) =
      let index = slot m.bucket_count b len in
      let chain = shrink m.bucket_count (update m.collision_table index none) b len in
      entry last.key
        (main b (record { key = last.key; value = last.value; chain_length = chain })
          (ground arith))
        (inl refl)

  FromCollision-Next :
      (m : HashMap K V) (f : K → Option V) (r : Represents m f) (i : ℕ) (c : CollisionEntry K V)
      (h : m.collision_table i ≡ some c) {res : HashMap K V × Iterator}
      → FromCollision m f r i c h none res
      → Next res.0 res.1
  FromCollision-Next m f r i c h (stays c' q) = entry c'.key (collision none i c' q refl) (inr refl)
  FromCollision-Next m f r i c h (steps same (at j c' l u h' g)) =
      entry c'.key (collision none j c' (same j (omega arith) ∙ h') refl) (inr refl)
  FromCollision-Next m f r i c h (steps same (past j g)) = stop refl

  -- Along an iteration, `remove` takes the key of the entry out of the map, and the iterator that it
  -- returns is the end or is at an entry of the new table, and again one that `remove` may be called
  -- with in the same way.
  pub remove-Next :
      (m : HashMap K V) (f : K → Option V) (k : K) (it : Iterator)
      → Represents m f
      → At m k it
      → Stepping it
      → (res : HashMap K V × Iterator) × (remove m it ≡ some res)
        × Removed m f k res.0
        × Next res.0 res.1
  remove-Next m f k _ r (main b e h) s =
      let (res, ran, removed, next) = remove_main-FromMain m f r b e h in
      (res, ran, removed, FromMain-Next m f r b e h next)
  remove-Next m f k _ r (collision none i c h own) s =
      let (res, ran, removed, next) = remove_collision-FromCollision m f r i c h none own in
      (res, ran, removed, FromCollision-Next m f r i c h next)
  remove-Next m f k _ r (collision (some b) i c h own) (inl q) = cc
  remove-Next m f k _ r (collision (some b) i c h own) (inr q) = cc
