-- ===== src/HashMap/Lookup.antt =====
-- `find` (include/hash_map.h) on a well-formed table.
use turbokit.Base.{
  ℕ, zero, suc, ◌+◌, ◌<◌, ◌≤◌, ◌≡◌, ◌≢◌, refl, true, false, Option, none, some, ◌==◌, arith,
  Bool-cases, Option-cases, inl, inr,
}
use turbokit.HashMap.Types.{
  Traits, HashMap, MainEntry, CollisionEntry, null, in_main, in_collision, Iterator, iterator,
  entry_at,
}
use turbokit.HashMap.Find.{equal, find}
use turbokit.HashMap.Slots.{slot, distance, masked-lt, slot-distance}
use turbokit.HashMap.Scan.{search, find_in_collision_chain-search}
use turbokit.HashMap.Invariant.{Absent, home, IsTable, Represents}

module _ {K V : Type 0} ⦃t : Traits K⦄ where
  -- The outcomes of a search.
  pub data Searched (m : HashMap K V) (b : ℕ) (k : K) (stop rounds d : ℕ) : Iterator → Type 0 where
    hit :
        (i : ℕ)
        → equal (m.collision_table i) b k ≡ true
        → Searched m b k stop rounds d (iterator (some b) (some i) (in_collision i))
    miss :
        ((e : ℕ)
          → d ≤ e
          → e < rounds + d
          → equal (m.collision_table (slot m.bucket_count b e)) b k ≡ false)
        → Searched m b k stop rounds d (iterator (some b) (some stop) null)

  search-Searched :
      (m : HashMap K V) (b : ℕ) (k : K) (stop rounds d : ℕ)
      → Searched m b k stop rounds d (search m b k stop rounds d)
  unfolding search
  search-Searched m b k stop zero d = miss (λ e h l. absurd (omega arith))
  search-Searched m b k stop (suc rounds) d =
      elim (Bool-cases (equal (m.collision_table (slot m.bucket_count b d)) b k)) [
        | inl e ↦ rw e (hit (slot m.bucket_count b d) e)
        | inr e ↦ rw e (go (search-Searched m b k stop rounds (d + 1)) e)
      ]
    where
      go :
          {it : Iterator}
          → Searched m b k stop rounds (d + 1) it
          → equal (m.collision_table (slot m.bucket_count b d)) b k ≡ false
          → Searched m b k stop (suc rounds) d it
      go (hit i h) e = hit i h
      go (miss h) e = miss λ x hx lx. elim (Bool-cases (d == x)) [
        | inl s ↦ let same : d ≡ x = ground arith in rw same at e
        | inr s ↦ h x (ground arith) (omega arith)
      ]

  -- The outcomes of `find`: the entry with the key, or the place where it would go.
  pub data Found (m : HashMap K V) (k : K) : Iterator → Type 0 where
    main_hit :
        (e : MainEntry K V)
        → m.main_table (home m k) ≡ some e
        → e.key ≡ k
        → Found m k (iterator (some (home m k)) none (in_main (home m k)))
    collision_hit :
        (i : ℕ) (c : CollisionEntry K V)
        → m.collision_table i ≡ some c
        → c.key ≡ k
        → Found m k (iterator (some (home m k)) (some i) (in_collision i))
    vacant :
        m.main_table (home m k) ≡ none
        → Absent m k
        → Found m k (iterator (some (home m k)) none null)
    behind :
        (e : MainEntry K V)
        → m.main_table (home m k) ≡ some e
        → Absent m k
        → Found m k
            (iterator (some (home m k)) (some (slot m.bucket_count (home m k) e.chain_length)) null)

  equal_hit :
      (o : Option (CollisionEntry K V)) (b : ℕ) (k : K)
      → equal o b k ≡ true
      → (c : CollisionEntry K V) × (o ≡ some c) × (c.key ≡ k) × (c.main_index ≡ b)
  unfolding equal
  equal_hit none b k h = cc
  equal_hit (some c) b k h = (c, refl, ground (arith, t.equal_iff c.key k), ground arith)

  equal_own :
      (c : CollisionEntry K V) (b : ℕ) (k : K)
      → c.main_index ≡ b
      → c.key ≡ k
      → equal (some c) b k ≡ true
  unfolding equal
  equal_own c b k hb hk = ground (arith, t.equal_iff c.key k)

  module _ (m : HashMap K V) (k : K) (w : IsTable m) where
    open w use {allocated, power, at_home, chained}

    abbrev b : ℕ
    b = home m k

    b-lt : b < m.bucket_count
    b-lt = masked-lt power (t.hash k)

    Absent-vacant : m.main_table b ≡ none → Absent m k
    Absent-vacant free = record {
      main = λ x e h same. ground (arith, at_home x e h);
      collision = λ i c h same. ground (arith, chained i c h);
    }

    -- The bucket's chain has been looked through.
    Absent-missed :
        (e : MainEntry K V)
        → m.main_table b ≡ some e
        → e.key ≢ k
        → ((d : ℕ)
            → d < e.chain_length
            → equal (m.collision_table (slot m.bucket_count b d)) b k ≡ false)
        → Absent m k
    Absent-missed e h ne others = record {
      main = λ x e' h' same. ground (arith, at_home x e' h');
      collision = λ i c hc same.
          let own = chained i c hc in
          let mine : c.main_index ≡ b = ground arith in
          let here = slot-distance m.bucket_count b i b-lt own.0 in
          let missed = others (distance m.bucket_count b i) (ground arith) in
          let hit = equal_own c b k mine same in cc (rw here at missed);
    }

    chain-Found :
        (e : MainEntry K V)
        → m.main_table b ≡ some e
        → e.key ≢ k
        → {it : Iterator}
        → Searched m b k (slot m.bucket_count b e.chain_length) e.chain_length 0 it
        → Found m k it
    chain-Found e h ne (hit i q) =
        let found = equal_hit (m.collision_table i) b k q in collision_hit i found.0 found.1 found.2
    chain-Found e h ne (miss q) =
        behind e h (Absent-missed e h ne (λ d l. q d (omega arith) (omega arith)))

    behind_at :
        (e : MainEntry K V)
        → m.main_table b ≡ some e
        → (s : ℕ) → s ≡ slot m.bucket_count b e.chain_length
        → Absent m k
        → Found m k (iterator (some b) (some s) null)
    behind_at e h s q a = rw q (behind e h a)

    -- `find` returns the entry with the key, or the place where a new entry would go.
    pub find-Found : Found m k (find m k)
    unfolding find
    find-Found = simp allocated (elim (Option-cases (m.main_table b)) [
      | inl h ↦ rw h (vacant h (Absent-vacant h))
      | inr (e, h) ↦ rw h (elim (Bool-cases (t.equal e.key k)) [
        | inl same ↦ rw same (main_hit e h ((t.equal_iff e.key k).0 same))
        | inr differs ↦
            let ne : e.key ≢ k = λ q. ground (arith, t.equal_iff e.key k) in
            rw differs (elim (Bool-cases (e.chain_length == 0)) [
              | inl short ↦ rw short (
                  behind_at e h b (ground (arith, b-lt))
                    (Absent-missed e h ne (λ d l. absurd (ground arith))))
              | inr long ↦
                  rw
                    (
                      long,
                      find_in_collision_chain-search m b e.chain_length k power b-lt (ground arith)
                          (at_home b e h).2,
                    )
                    (chain-Found e h ne (search-Searched m b k _ e.chain_length 0))
            ])
      ])
    ])

  abbrev pub with_key : K → Option V → Option (K × V)
  with_key k none = none
  with_key k (some v) = some (k, v)

  Found-entry_at :
      (m : HashMap K V) (f : K → Option V) (k : K) {it : Iterator}
      → Represents m f
      → Found m k it
      → entry_at m it.value_ptr ≡ with_key k (f k)
  unfolding entry_at
  Found-entry_at m f k r (main_hit e h same) = rw (h, ← same, r.main (home m k) e h)
  Found-entry_at m f k r (collision_hit i c h same) = rw (h, ← same, r.collision i c h)
  Found-entry_at m f k r (vacant h a) = rw (r.absent k a)
  Found-entry_at m f k r (behind e h a) = rw (r.absent k a)

  -- On a table that holds the map `f`, `find` leads to the key with its value in `f`, and to the
  -- null pointer where `f` has none.
  pub find-entry_at :
      (m : HashMap K V) (f : K → Option V) (k : K)
      → Represents m f
      → entry_at m (find m k).value_ptr ≡ with_key k (f k)
  find-entry_at m f k r = Found-entry_at m f k r (find-Found m k r.table)
