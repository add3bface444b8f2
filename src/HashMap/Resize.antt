-- ===== src/HashMap/Resize.antt =====
-- `resize_table` and `reserve` (include/hash_map.h): the new tables hold what the old ones held.
use Prim.Native.Nat.{bit_and}
use turbokit.Base.{
  ℕ, ◌+◌, ◌-◌, ◌/◌, ◌^◌, ◌≤◌, ◌≡◌, false, Option, none, ◌==◌, leb, arith, ◌∙◌, fun_ext, and_mask,
  two_pow_pos,
}
use native.Mathlib.Nat.{mod_self}
use turbokit.HashMap.Types.{Traits, HashMap}
use turbokit.HashMap.Insert.{
  Result, ok, ◌>>=◌, Inserter, rehash, resize_table, reserve, grow, main_pair, collision_pair,
  fresh,
}
use turbokit.HashMap.Invariant.{Represents, count_used}
use turbokit.HashMap.Grow.{Grown, grow-Grown}
use turbokit.HashMap.Rehash.{
  Good, Works, rehash_lem, same_map, main_pair-stored, collision_pair-stored, count-main_pair,
  count-collision_pair, fresh-Good,
}

module _ {K V : Type 0} ⦃t : Traits K⦄ where
  module _ (log high limit : ℕ) (fits : log ≤ high) (insert : Inserter K V)
      (works : Works log high limit insert) (m : HashMap K V) (f : K → Option V)
      (r : Represents m f) (room : m.element_count ≤ limit) where
    abbrev n : ℕ
    n = m.bucket_count

    abbrev mains : ℕ
    mains = count_used n (main_pair m)

    abbrev total : mains + count_used n (collision_pair m) ≡ m.element_count
    total = omega (arith, r.table.counted, count-main_pair m n, count-collision_pair m n)

    pub rehash-Good :
        (m' : HashMap K V) × ((rehash insert (main_pair m) n 0 (fresh (2 ^ log))
            >>= rehash insert (collision_pair m) n 0)
          ≡ ok m')
        × Good log high m' f
        × (m'.element_count ≤ m.element_count)
    rehash-Good =
        let (m1, ran, done) =
          rehash_lem log high limit 0 n insert works f (main_pair m) (main_pair-stored m f r)
            (omega (arith, total, room)) n 0 (fresh (2 ^ log)) (λ k. none) (omega arith)
            (record {
              good = fresh-Good log high log (omega arith) fits;
              within = λ k v q. cc;
              seen = λ j k v l q. absurd (omega arith);
              count = omega arith;
            }) in
        let (m2, ran', done') =
          rehash_lem log high limit mains n insert works f (collision_pair m)
            (collision_pair-stored m f r) (omega (arith, total, room)) n 0 m1 done.map (omega arith)
            (record {
              good = done.moved.good;
              within = done.moved.within;
              seen = λ j k v l q. absurd (omega arith);
              count = omega (arith, done.moved.count);
            }) in
        let same : done'.map ≡ f = fun_ext (
          same_map m f done'.map r done'.moved.within
            (λ i k v l q. done'.kept k v (done.moved.seen i k v l q)) done'.moved.seen) in
        (m2, rw ran ran', rw same at done'.moved.good, omega (arith, done'.moved.count, total))

    -- What every table that is made here comes to.
    abbrev pub Outcome : Result (HashMap K V) → Type 0
    Outcome res =
        (m' : HashMap K V) × (res ≡ ok m')
        × Good log high m' f
        × (m'.element_count ≤ m.element_count)

    pub resize_table-Good : Outcome (resize_table insert (2 ^ log) m)
    unfolding resize_table
    resize_table-Good =
        let power : bit_and (2 ^ log) (2 ^ log - 1) ≡ 0 =
          and_mask (2 ^ log) log ∙ mod_self (2 ^ log) in
        rw (power, r.table.allocated) rehash-Good

  -- `reserve` makes tables of the least power of two that is enough, from the present size on.
  pub reserve-resize_table :
      (insert : Inserter K V) (q k : ℕ) (m : HashMap K V)
      → m.bucket_count ≡ 2 ^ k
      → k ≤ 62
      → q ≤ 2 ^ 62
      → (r : ℕ) × Grown q k r × (reserve insert q m ≡ resize_table insert r m)
  unfolding reserve
  reserve-resize_table insert q k m size hk hq =
      let g = grow-Grown q k (omega arith) (omega arith) in
      let small : leb ((2 ^ 64 - 1) / 2) q ≡ false = ground arith in
      let pos : (2 ^ k == 0) ≡ false = ground (arith, two_pow_pos k) in
      (grow 64 q (2 ^ k), g, rw (small, size, pos))
