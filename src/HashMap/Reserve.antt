-- ===== src/HashMap/Reserve.antt =====
-- `reserve` (include/hash_map.h) with the insertions that the header makes.
use turbokit.Base.{
  ℕ, suc, ◌+◌, ◌-◌, ◌*◌, ◌^◌, ◌<◌, ◌≤◌, ◌≡◌, arith, two_pow_mono, two_pow_pos, lt_of_two_pow-lt,
  Option, inl, inr,
}
use native.Mathlib.Nat.{pow-suc}
use turbokit.HashMap.Types.{Traits, HashMap}
use turbokit.HashMap.Insert.{ok, reserve, start, run, try_insert}
use turbokit.HashMap.Invariant.{Represents}
use turbokit.HashMap.Resize.{resize_table-Good, reserve-resize_table}
use turbokit.HashMap.Run.{Suffices}
use turbokit.HashMap.Start.{Start-step, levels}

pub log-le : (a b : ℕ) → 2 ^ a ≤ 2 ^ b → a ≤ b
log-le a b h =
    let lt : a < suc b = lt_of_two_pow-lt a (suc b) (omega (arith, pow-suc 2 b, two_pow_pos b)) in
    omega arith

module _ {K V : Type 0} ⦃t : Traits K⦄ where
  -- `reserve` ends, with as much fuel as twice the logarithm of a bucket count that suffices. The new
  -- tables hold the same map, and have at least the buckets asked for and no fewer than before.
  pub reserve-Represents :
      (high fuel q : ℕ) (m : HashMap K V) (f : K → Option V)
      → Suffices t.entry_size high m.element_count
      → Represents m f
      → m.bucket_count ≤ 2 ^ high
      → q ≤ 2 ^ high
      → 2 * high + 2 ≤ fuel
      → (m' : HashMap K V) × (reserve (try_insert fuel) q m ≡ ok m')
        × Represents m' f
        × (q ≤ m'.bucket_count)
        × (m.bucket_count ≤ m'.bucket_count)
  unfolding try_insert
  reserve-Represents high fuel q m f s r fits most hf =
      let (log, size) = r.table.power in
      let low : log ≤ high = log-le log high (omega (arith, size)) in
      let addressable = s.addressable in
      let (n, grown, made) =
        reserve-resize_table (run fuel start) q log m size (omega arith)
          (omega (arith, two_pow_mono high 62 addressable)) in
      let top : grown.log ≤ high = elim grown.least [
        | inl e ↦ omega arith
        | inr lt ↦
            let below : grown.log < suc high =
              lt_of_two_pow-lt grown.log (suc high) (omega (arith, pow-suc 2 high)) in
            omega arith
      ] in
      let l = high - grown.log in
      let (more, ag) = levels high m.element_count s l in
      let works =
        Start-step high m.element_count s l more ag fuel grown.log (omega arith) (omega arith) in
      let (m1, ran, good, kept) =
        resize_table-Good grown.log high m.element_count top (run fuel start) works m f r
          (omega arith) in
      (
        m1,
        rw (made, grown.size) ran,
        good.represents,
        omega (arith, good.size, grown.enough, two_pow_mono grown.log good.log good.at_least),
        omega (
          arith,
          size,
          good.size,
          two_pow_mono log good.log (omega (arith, good.at_least, grown.from)),
        ),
      )
