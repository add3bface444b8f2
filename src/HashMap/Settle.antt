-- ===== src/HashMap/Settle.antt =====
-- What placing an absent key comes to in `try_insert` (include/hash_map.h): an entry for it, or a
-- larger table. `IsDense` and `IsBig` say when the table is not enlarged.
use turbokit.Base.{
  ℕ, zero, suc, ◌+◌, ◌*◌, ◌/◌, ◌<◌, ◌≤◌, ◌≡◌, ◌≢◌, refl, true, false, Option, none, some, ◌==◌,
  arith, Bool-cases, Option-cases, inl, inr, dec_lt,
}
use turbokit.HashMap.Types.{
  Traits, HashMap, MainEntry, in_main, in_collision, Iterator, iterator, entry_at, update,
}
use turbokit.HashMap.Find.{find}
use turbokit.HashMap.Insert.{
  Placing, placed, expand, place_main, place_collision, place_at, place, probe, crowded, too_long,
}
use turbokit.HashMap.Slots.{slot, masked-lt, distance-slot, slot-lt}
use turbokit.HashMap.Invariant.{Absent, home, Represents, chain_of, count_used}
use turbokit.HashMap.Counting.{count_used-update, vacancy, count_used_pos}
use turbokit.HashMap.Lookup.{Found, main_hit, collision_hit, vacant, behind, find-Found}
use turbokit.HashMap.Place.{assign, place_main-Represents, place_collision-Represents}
use turbokit.HashMap.Probe.{round, Vacant, round-slot, probe-slot}

-- Used slots at the distances below `d` are counted.
count_used-distances :
    {A : Type 0} (n b d : ℕ) (f : ℕ → Option A)
    → b < n
    → d ≤ n
    → ((y : ℕ) → y < d → f (slot n b y) ≢ none)
    → d ≤ count_used n f
count_used-distances n b zero f hb hd h = omega arith
count_used-distances n b (suc d) f hb hd h =
    let i = slot n b d in
    let less =
      count_used-distances n b d (update f i none) hb (omega arith)
        (λ y l q. h y (omega arith) (ground (arith, distance-slot n b y, distance-slot n b d))) in
    elim (Option-cases (f i)) [
      | inl free ↦ absurd (h d (omega arith) free)
      | inr (a, e) ↦
          ground (arith, less, count_used-update n f i none (slot-lt n b d hb (omega arith)))
    ]

module _ {K V : Type 0} where
  -- No vacant slot within a chain.
  abbrev pub IsDense : HashMap K V → Type 0
  IsDense m =
      (b d : ℕ)
      → b < m.bucket_count
      → d < chain_of (m.main_table b)
      → m.collision_table (slot m.bucket_count b d) ≢ none

module _ {K V : Type 0} ⦃t : Traits K⦄ where
  -- Large enough for neither test to ask for more buckets, on a dense table.
  pub record IsBig (m : HashMap K V) : Type 0 where
    pub limit : 1024 * 1024 * 4 / t.entry_size ≤ m.bucket_count
    pub crowd : 1024 * 1024 / t.entry_size ≤ m.bucket_count
    pub load : m.element_count * 2 + 2 ≤ m.bucket_count

  pub data Settled (m : HashMap K V) (f : K → Option V) (k : K) (v : V) : Placing K V → Type 0 where
    done :
        {m' : HashMap K V} {it : Iterator}
        → Represents m' (assign f k v)
        → m'.bucket_count ≡ m.bucket_count
        → m'.element_count ≡ m.element_count + 1
        → entry_at m' it.value_ptr ≡ some (k, v)
        → (IsDense m → IsDense m')
        → Settled m f k v (placed m' it)
    enlarge : (IsDense m → IsBig m → ⊥) → Settled m f k v expand

  module _ (m : HashMap K V) (f : K → Option V) (k : K) (v : V) (r : Represents m f)
      (a : Absent m k) where
    open r use {table}

    abbrev b : ℕ
    b = home m k

    b-lt : b < m.bucket_count
    b-lt = masked-lt table.power (t.hash k)

    settle_main :
        m.main_table b ≡ none
        → Settled m f k v (placed (place_main b k v m) (iterator (some b) none (in_main b)))
    unfolding place_main entry_at
    settle_main free =
        done (place_main-Represents m k v table a f r free) refl refl (ground arith)
          (λ dense x d hx hd. ground (arith, dense x d hx))

    module _ (e : MainEntry K V) (h : m.main_table b ≡ some e)
        (room : m.element_count < m.bucket_count) where
      -- The slot that the probe stops at.
      probed :
          (reached : ℕ) × (probe m m.bucket_count
              (slot m.bucket_count b e.chain_length)
              (e.chain_length + 1)
            ≡ some (round m table.power b reached, reached + 1))
          × Vacant m table.power b e.chain_length reached
      probed =
          let (j, lt, free) =
            vacancy m.bucket_count m.collision_table (omega (arith, table.counted)) in
          probe-slot m table.power b b-lt e.chain_length j (table.at_home b e h).2 lt free

      -- On a dense table all slots from the bucket to the one reached are in use.
      reached-lt :
          (reached : ℕ)
          → Vacant m table.power b e.chain_length reached
          → IsDense m
          → reached + 1 ≤ m.element_count
      reached-lt reached x dense =
          let main_used = count_used_pos m.bucket_count m.main_table b e b-lt h in
          elim (dec_lt reached m.bucket_count) [
            | yes lt ↦ omega (
              arith,
              main_used,
              table.counted,
              count_used-distances m.bucket_count b reached m.collision_table b-lt (omega arith)
                  (λ y l. in_use y l (omega arith)),
            )
            | no ge ↦ absurd (
                omega (
                  arith,
                  main_used,
                  table.counted,
                  count_used-distances m.bucket_count b m.bucket_count m.collision_table b-lt
                      (omega arith) (λ y l. in_use y (omega arith) l),
                ))
          ]
        where
          in_use :
              (y : ℕ)
              → y < reached
              → y < m.bucket_count
              → m.collision_table (slot m.bucket_count b y) ≢ none
          in_use y l ly = elim (dec_lt y e.chain_length) [
            | yes early ↦ dense b y b-lt (ground arith)
            | no late ↦ rw (round-slot m table.power b b-lt y ly) at (x.passed y (omega arith) l)
          ]

      not-too_long :
          (reached : ℕ)
          → Vacant m table.power b e.chain_length reached
          → too_long m (reached + 1) ≡ true
          → IsDense m
          → IsBig m
          → ⊥
      unfolding too_long
      not-too_long reached x long dense big =
          ground (arith, reached-lt reached x dense, big.limit, big.load)

      not-crowded : crowded m ≡ true → IsBig m → ⊥
      unfolding crowded
      not-crowded c big = ground (arith, big.crowd)

      short_lt : (chain : ℕ) → too_long m chain ≡ false → chain < m.bucket_count
      unfolding too_long
      short_lt chain short = ground arith

      module _ (d : ℕ) (x : Vacant m table.power b e.chain_length d)
          (lt : d + 1 < m.bucket_count) where
        abbrev i : ℕ
        i = slot m.bucket_count b d

        vacant_slot : m.collision_table i ≡ none
        vacant_slot = rw (round-slot m table.power b b-lt d (omega arith)) at x.vacant

        passed_slot :
            (y : ℕ)
            → e.chain_length ≤ y
            → y < d
            → m.collision_table (slot m.bucket_count b y) ≢ none
        passed_slot y l u = rw (round-slot m table.power b b-lt y (omega arith)) at (x.passed y l u)

        placed-IsDense : IsDense m → IsDense (place_collision b i (d + 1) e k v m)
        unfolding place_collision
        placed-IsDense dense y d' hy hd = elim (Bool-cases (slot m.bucket_count y d' == i)) [
          | inl own ↦ rw own (λ q. cc)
          | inr other ↦ rw other (elim (Bool-cases (y == b)) [
            | inl same ↦
                let at_b : y ≡ b = ground arith in
                rw at_b (elim (dec_lt d' e.chain_length) [
                  | yes early ↦ dense b d' b-lt (ground arith)
                  | no late ↦ passed_slot d' (omega arith) (ground arith)
                ])
            | inr ne ↦ dense y d' hy (ground arith)
          ])
        ]

        settle_collision : Settled m f k v (
            placed
              (place_collision b i (d + 1) e k v m)
              (iterator (some b) (some i) (in_collision i)))
        unfolding place_collision entry_at
        settle_collision =
            done (place_collision-Represents m k v table a e d h x.onward lt vacant_slot f r) refl
              refl (ground arith) placed-IsDense

      settle_behind :
          Settled m f k v (place_at b (some (slot m.bucket_count b e.chain_length)) k v m)
      unfolding place_at
      settle_behind = elim (Bool-cases (crowded m)) [
        | inl c ↦ rw c (enlarge (λ dense big. not-crowded c big))
        | inr c ↦
            let (reached, found, x) = probed in
            rw (c, h, found)
              (elim (Bool-cases (too_long m (reached + 1))) [
                | inl long ↦ rw long (enlarge (not-too_long reached x long))
                | inr short ↦
                    let lt = short_lt (reached + 1) short in
                    rw (short, round-slot m table.power b b-lt reached (omega arith))
                      (settle_collision reached x lt)
              ])
      ]

  settle :
      (m : HashMap K V) (f : K → Option V) (k : K) (v : V) {it : Iterator}
      → Represents m f
      → m.element_count < m.bucket_count
      → f k ≡ none
      → Found m k it
      → Settled m f k v (place it k v m)
  unfolding place place_at
  settle m f k v r room out (main_hit e h same) = absurd (ground (arith, r.main (home m k) e h))
  settle m f k v r room out (collision_hit i c h same) = absurd (ground (arith, r.collision i c h))
  settle m f k v r room out (vacant h a) = settle_main m f k v r a h
  settle m f k v r room out (behind e h a) = settle_behind m f k v r a e h room

  -- Placing a key that the map does not have puts its entry into the tables, which then hold the map
  -- with the key at the value, or asks for more buckets; the latter never on a big and dense table.
  pub place-Settled :
      (m : HashMap K V) (f : K → Option V) (k : K) (v : V)
      → Represents m f
      → m.element_count < m.bucket_count
      → f k ≡ none
      → Settled m f k v (place (find m k) k v m)
  place-Settled m f k v r room out = settle m f k v r room out (find-Found m k r.table)
