-- ===== src/HashMap/Place.antt =====
-- A new element in its own bucket, and behind the chain of its bucket (include/hash_map.h).
use turbokit.Base.{
  ℕ, ◌+◌, ◌<◌, ◌≤◌, ◌≡◌, ◌≢◌, Option, none, some, ◌==◌, arith, if◌then◌else◌, Bool-cases, inl, inr,
}
use turbokit.HashMap.Types.{Traits, HashMap, MainEntry}
use turbokit.HashMap.Insert.{main_entry, collision_entry, place_main, place_collision}
use turbokit.HashMap.Slots.{slot, masked-lt, distance-slot, slot-lt}
use turbokit.HashMap.Invariant.{Absent, home, IsTable, Represents}
use turbokit.HashMap.Counting.{count_used-update}

module _ {K V : Type 0} ⦃t : Traits K⦄ where
  -- The map with `k` at `v`.
  abbrev pub assign : (K → Option V) → K → V → K → Option V
  assign f k v j = if t.equal k j then some v else f j

  module _ (m : HashMap K V) (k : K) (v : V) (w : IsTable m) (a : Absent m k) where
    open w use {allocated, power, at_home, chained, ends, apart, unique, counted}

    abbrev b : ℕ
    b = home m k

    place_main-IsTable : m.main_table b ≡ none → IsTable (place_main b k v m)
    unfolding place_main
    place_main-IsTable free = record {
      allocated = allocated;
      power = power;
      at_home = λ x e h. ground (arith, at_home x e, masked-lt power (t.hash k));
      chained = λ i c h. ground (arith, chained i c h);
      ends = λ x d hx h. ground (arith, ends x d hx);
      apart = λ x i e c h hc. ground (arith, apart x i e c, a.collision i c hc);
      unique = unique;
      counted = ground (
        arith,
        counted,
        count_used-update m.bucket_count m.main_table b
            (some (record { key = k; value = v; chain_length = 0 })) (masked-lt power (t.hash k)),
      );
    }

    module _ (f : K → Option V) (r : Represents m f) where
      pub place_main-Represents :
          m.main_table b ≡ none → Represents (place_main b k v m) (assign f k v)
      unfolding place_main
      place_main-Represents free = record {
        table = place_main-IsTable free;
        main = λ x e h. ground (arith, r.main x e, a.main x e, t.equal_iff k e.key);
        collision =
            λ i c h. ground (arith, r.collision i c h, a.collision i c h, t.equal_iff k c.key);
        absent = λ j out.
            let differs : k ≢ j = out.main b (main_entry k v 0) (ground arith) in
            let before =
              r.absent j (record {
                main = λ x e h. out.main x e (ground arith);
                collision = out.collision;
              }) in
            ground (arith, t.equal_iff k j);
      }

    -- A vacant slot at distance `d`, behind the chain of the bucket's entry `e`.
    module _ (e : MainEntry K V) (d : ℕ) (taken : m.main_table b ≡ some e)
        (behind : e.chain_length ≤ d) (room : d + 1 < m.bucket_count)
        (free : m.collision_table (slot m.bucket_count b d) ≡ none) where
      abbrev i : ℕ
      i = slot m.bucket_count b d

      abbrev placed_behind : HashMap K V
      placed_behind = place_collision b i (d + 1) e k v m

      place_collision-IsTable : IsTable placed_behind
      unfolding place_collision
      place_collision-IsTable = record {
        allocated = allocated;
        power = power;
        at_home = λ x e' h. ground (arith, at_home x e', at_home b e);
        chained = λ x c h. ground (
          arith,
          chained x c,
          masked-lt power (t.hash k),
          slot-lt m.bucket_count b d,
          distance-slot m.bucket_count b d,
        );
        ends = λ x d' hx h. elim (Bool-cases (x == b)) [
          | inl own ↦
              let here : x ≡ b = ground arith in
              let last : d' ≡ d = ground arith in rw (here, last) (ground arith)
          | inr other ↦
              let before = ends x d' hx (ground arith) in
              elim (Bool-cases (slot m.bucket_count x d' == i)) [
                | inl same ↦
                    let at_i : slot m.bucket_count x d' ≡ i = ground arith in
                    cc (rw (at_i, free) at before)
                | inr ne ↦ rw ne before
              ]
        ];
        apart =
            λ x y e' c h hc. ground (arith, apart x y e' c, a.main x e', apart b y e c, a.main b e);
        unique = λ x y c c' h h' same.
            ground (arith, unique x y c c', a.collision x c, a.collision y c');
        counted = ground (
          arith,
          counted,
          count_used-update m.bucket_count m.main_table b (some (main_entry e.key e.value (d + 1)))
              (masked-lt power (t.hash k)),
          count_used-update m.bucket_count m.collision_table i (some (collision_entry k v b))
              (slot-lt m.bucket_count b d (masked-lt power (t.hash k)) (omega arith)),
        );
      }

      module _ (f : K → Option V) (r : Represents m f) where
        pub place_collision-Represents : Represents placed_behind (assign f k v)
        unfolding place_collision
        place_collision-Represents = record {
          table = place_collision-IsTable;
          main = λ x e' h. ground (
            arith,
            r.main x e',
            r.main b e,
            a.main x e',
            a.main b e,
            t.equal_iff k e'.key,
            t.equal_iff k e.key,
          );
          collision =
              λ x c h. ground (arith, r.collision x c, a.collision x c, t.equal_iff k c.key);
          absent = λ j out.
              let differs : k ≢ j = out.collision i (collision_entry k v b) (ground arith) in
              let own : e.key ≢ j = out.main b (main_entry e.key e.value (d + 1)) (ground arith) in
              let before = r.absent j (record {
                main = λ x e' h. ground (arith, out.main x e');
                collision = λ x c h. out.collision x c (ground arith);
              }) in
              ground (arith, t.equal_iff k j);
        }
