-- ===== src/HashMap/Run.antt =====
-- `try_insert` (include/hash_map.h) ends, and what it returns.
use turbokit.Base.{
  ℕ, zero, suc, ◌+◌, ◌*◌, ◌/◌, ◌^◌, ◌<◌, ◌≤◌, ◌≡◌, refl, Bool, true, Option, none, some, arith, ◌∙◌,
  fun_ext, dec_lt, two_pow_mono, two_pow_pos, lt_of_two_pow-lt,
}
use native.Mathlib.Nat.{pow-suc}
use turbokit.HashMap.Types.{Traits, HashMap, Iterator, entry_at}
use turbokit.HashMap.Insert.{
  Result, ok, ◌>>=◌, fault, Inserter, Placing, placed, expand, undefined, reserve, resize_table,
  start, resized, run,
}
use turbokit.HashMap.Invariant.{Represents}
use turbokit.HashMap.Place.{assign}
use turbokit.HashMap.Settle.{IsDense, IsBig, Settled, done, enlarge, place-Settled}
use turbokit.HashMap.Rehash.{Good, Inserted, Works, insert_new}
use turbokit.HashMap.Resize.{resize_table-Good, reserve-resize_table}

-- The steps of an enlargement, put together.
made_then :
    {K V B : Type 0} (insert : Inserter K V) (q n log : ℕ) (m m1 : HashMap K V)
    (next : HashMap K V → Result B) (r : B)
    → reserve insert q m ≡ resize_table insert n m
    → n ≡ 2 ^ log
    → resize_table insert (2 ^ log) m ≡ ok m1
    → next m1 ≡ ok r
    → (reserve insert q m >>= next) ≡ ok r
made_then insert q n log m m1 next r made size ran last = rw (made, size, ran) last

-- `2 ^ high` buckets are enough for `limit` elements, and for the two tests of `try_insert`.
pub record Suffices (entry_size high limit : ℕ) : Type 0 where
  pub addressable : high ≤ 62
  pub load : limit * 2 ≤ 2 ^ high
  pub crowd : 1024 * 1024 / entry_size ≤ 2 ^ high
  pub chains : 1024 * 1024 * 4 / entry_size ≤ 2 ^ high

module _ {K V : Type 0} ⦃t : Traits K⦄ where
  pub insert_new-none :
      (g : K → Option V) (k : K) (v : V) → g k ≡ none → insert_new g k v ≡ assign g k v
  insert_new-none g k v e = fun_ext (λ j. ground arith)

  pub insert_new-some : (g : K → Option V) (k : K) (v w : V) → g k ≡ some w → insert_new g k v ≡ g
  insert_new-some g k v w e = fun_ext (λ j. ground arith)

-- What is shown of a call at `start` and of one at `resized`, with `l` doublings to go.
module _ (K V : Type 0) ⦃t : Traits K⦄ (high limit : ℕ) where
  abbrev pub Start : ℕ → Type 0
  Start l =
      (fuel low : ℕ)
      → 2 * l + 2 ≤ fuel
      → high ≤ low + l
      → Works {K = K} {V = V} low high limit (run fuel start)

  abbrev pub Again : ℕ → Type 0
  Again l =
      (fuel low : ℕ)
      → 2 * l + 1 ≤ fuel
      → (m : HashMap K V) (g : K → Option V) (k : K) (v : V) (x : Good low high m g)
      → high ≤ x.log + l
      → m.element_count + 1 ≤ limit
      → m.element_count < m.bucket_count
      → g k ≡ none
      → (r : HashMap K V × Iterator × Bool) × (run fuel resized m k v ≡ ok r)
        × Inserted low high m g k v r

  -- What an enlargement at level `l` comes to.
  abbrev pub More : ℕ → Type 0
  More l =
      (fuel q : ℕ)
      → 2 * l ≤ fuel
      → (m : HashMap K V) (g : K → Option V) (k : K) (v : V) → Represents m g
      → (log : ℕ) → m.bucket_count ≡ 2 ^ log
      → log < high
      → high ≤ log + l
      → m.bucket_count < q
      → q ≤ 2 ^ high
      → m.element_count < q
      → m.element_count + 1 ≤ limit
      → g k ≡ none
      → (r : HashMap K V × Iterator × Bool) × ((reserve (run fuel start) q m >>= λ m1.
            run fuel resized m1 k v)
          ≡ ok r)
        × Inserted (log + 1) high m g k v r

module _ {K V : Type 0} ⦃t : Traits K⦄ (high limit : ℕ) (s : Suffices t.entry_size high limit) where
  pub Good-weaken :
      {low low' : ℕ} {m : HashMap K V} {g : K → Option V}
      → low' ≤ low
      → Good low high m g
      → Good low' high m g
  Good-weaken h x = record {
    represents = x.represents;
    dense = x.dense;
    log = x.log;
    size = x.size;
    at_least = omega (arith, x.at_least);
    at_most = x.at_most;
  }

  -- More buckets, and the insertion once more.
  enlarge_lem :
      (l fuel q : ℕ)
      → Start K V high limit l
      → Again K V high limit l
      → 2 * l + 2 ≤ fuel
      → (m : HashMap K V) (g : K → Option V) (k : K) (v : V) → Represents m g
      → (log : ℕ) → m.bucket_count ≡ 2 ^ log
      → log ≤ high
      → high ≤ log + 1 + l
      → m.bucket_count < q
      → q ≤ 2 ^ high
      → m.element_count < q
      → m.element_count + 1 ≤ limit
      → g k ≡ none
      → (r : HashMap K V × Iterator × Bool) × ((reserve (run fuel start) q m >>= λ m1.
            run fuel resized m1 k v)
          ≡ ok r)
        × Inserted (log + 1) high m g k v r
  enlarge_lem l fuel q st ag hf m g k v r log size le left above fits room few out =
      let addressable = s.addressable in
      let (n, grown, made) =
        reserve-resize_table (run fuel start) q log m size (omega arith)
          (omega (arith, two_pow_mono high 62 addressable)) in
      let up : log < grown.log = lt_of_two_pow-lt log grown.log (omega (arith, grown.enough)) in
      let top : grown.log < suc high =
        lt_of_two_pow-lt grown.log (suc high)
          (omega (arith, grown.least, pow-suc 2 high, two_pow_pos high)) in
      let (m1, ran, good, kept) =
        resize_table-Good grown.log high limit (omega arith) (run fuel start)
          (st fuel grown.log hf (omega arith)) m g r (omega arith) in
      let (r1, last, ins) =
        ag fuel grown.log (omega arith) m1 g k v good (omega (arith, good.at_least)) (omega arith)
          (omega (arith, good.size, grown.enough, two_pow_mono grown.log good.log good.at_least))
          out in
      (
        r1,
        made_then (run fuel start) q n grown.log m m1 (λ m'. run fuel resized m' k v) r1 made
            grown.size ran last,
        record {
          good = Good-weaken (omega arith) ins.good;
          grown = omega (arith, ins.grown);
          points = ins.points;
          flag = ins.flag;
        },
      )

  Big_of_top : (m : HashMap K V) → m.bucket_count ≡ 2 ^ high → m.element_count + 1 ≤ limit → IsBig m
  Big_of_top m size few = record {
    limit = omega (arith, s.chains);
    crowd = omega (arith, s.crowd);
    load = omega (arith, s.load);
  }

  -- The element has found a place in the present table.
  settled_lem :
      (low : ℕ) (m m' : HashMap K V) (g : K → Option V) (k : K) (v : V) (it : Iterator)
      → Good low high m g
      → g k ≡ none
      → Represents m' (assign g k v)
      → m'.bucket_count ≡ m.bucket_count
      → m'.element_count ≡ m.element_count + 1
      → entry_at m' it.value_ptr ≡ some (k, v)
      → (IsDense m → IsDense m')
      → Inserted low high m g k v (m', it, true)
  settled_lem low m m' g k v it x out r size count at dense = record {
    good = record {
      represents = rw (insert_new-none g k v out) r;
      dense = dense x.dense;
      log = x.log;
      size = size ∙ x.size;
      at_least = x.at_least;
      at_most = x.at_most;
    };
    grown = omega arith;
    points = at ∙ ground (arith, t.equal_iff k k);
    flag = rw out;
  }

  pub More-zero : More K V high limit 0
  More-zero fuel q hf m g k v r log size lt left above fits room few out = absurd (omega arith)

  pub More-suc :
      (l : ℕ) → Start K V high limit l → Again K V high limit l → More K V high limit (suc l)
  More-suc l st ag fuel q hf m g k v r log size lt left above fits room few out =
      enlarge_lem l fuel q st ag (omega arith) m g k v r log size (omega arith) (omega arith) above
        fits room few out

  -- How a call at `resized` goes on, by what placing the element comes to.
  abbrev pub conclude :
      ℕ → HashMap K V → K → V → Placing K V → Result (HashMap K V × Iterator × Bool)
  conclude fuel m k v p = elim p [
    | placed m1 it ↦ ok (m1, it, true)
    | expand ↦ reserve (run fuel start) (m.bucket_count + 1) m >>= λ m1. run fuel resized m1 k v
    | undefined ↦ fault
  ]

  conclude_lem :
      (l : ℕ)
      → More K V high limit l
      → (fuel low : ℕ) → 2 * l ≤ fuel
      → (m : HashMap K V) (g : K → Option V) (k : K) (v : V) (x : Good low high m g)
      → high ≤ x.log + l
      → m.element_count + 1 ≤ limit
      → m.element_count < m.bucket_count
      → g k ≡ none
      → {p : Placing K V} → Settled m g k v p
      → (r : HashMap K V × Iterator × Bool) × (conclude fuel m k v p ≡ ok r)
        × Inserted low high m g k v r
  conclude_lem l more fuel low hf m g k v x left few room out
        (done {m'} {it} r size count at dense) =
      ((m', it, true), refl, settled_lem low m m' g k v it x out r size count at dense)
  conclude_lem l more fuel low hf m g k v x left few room out (enlarge never) =
      elim (dec_lt x.log high) [
        | yes lt ↦
            let (r, ran, ins) =
              more fuel (m.bucket_count + 1) hf m g k v x.represents x.log x.size lt left
                (omega arith)
                (omega (
                  arith,
                  x.size,
                  pow-suc 2 x.log,
                  two_pow_pos x.log,
                  two_pow_mono (suc x.log) high lt,
                ))
                (omega arith) few out in
            (
              r,
              ran,
              record {
                good = Good-weaken (omega (arith, x.at_least)) ins.good;
                grown = ins.grown;
                points = ins.points;
                flag = ins.flag;
              },
            )
        | no ge ↦
            let top : x.log ≡ high = omega (arith, x.at_most) in
            absurd (never x.dense (Big_of_top m (rw top at x.size) few))
      ]

  pub again_lem : (l : ℕ) → More K V high limit l → Again K V high limit l
  unfolding run
  again_lem l more zero low hf m g k v x left few room out = absurd (omega arith)
  again_lem l more (suc fuel) low hf m g k v x left few room out =
      conclude_lem l more fuel low (omega arith) m g k v x left few room out
        (place-Settled m g k v x.represents room out)
