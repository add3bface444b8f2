-- ===== src/HashMap/Scan.antt =====
-- The unrolled loop of `find_in_collision_chain` (include/hash_map.h) against the plain search of
-- the chain, slot by slot.
use turbokit.Base.{
  ℕ, zero, suc, ◌+◌, ◌-◌, ◌<◌, ◌≤◌, ◌≡◌, refl, some, arith, ◌==◌, ltb, if◌then◌else◌, Bool-cases,
  inl, inr, ◌∙◌,
}
use turbokit.HashMap.Types.{Traits, HashMap, null, in_collision, Iterator, iterator}
use turbokit.HashMap.Find.{
  Cursor, cursor, equal, check, case1, case2, case3, case4, switch, body, loop, advance, rewind,
  end_iterator, find_in_collision_chain,
}
use turbokit.HashMap.Slots.{IsPowerOfTwo, slot, masked-slot}

module _ {K V : Type 0} ⦃t : Traits K⦄ where
  -- Look at the slots at distance `d`, `d + 1`, …, `rounds` of them, and then give up at `stop`.
  unfoldable pub search : HashMap K V → (b : ℕ) → K → (stop rounds d : ℕ) → Iterator
  search m b key stop zero d = iterator (some b) (some stop) null
  search m b key stop (suc rounds) d =
      if equal (m.collision_table (slot m.bucket_count b d)) b key
      then iterator (some b) (some (slot m.bucket_count b d))
          (in_collision (slot m.bucket_count b d))
      else search m b key stop rounds (d + 1)

  -- The chain of bucket `b` is `len` slots long, and does not go all the way round.
  module _ (m : HashMap K V) (b : ℕ) (key : K) (len : ℕ) (p : IsPowerOfTwo m.bucket_count)
      (hb : b < m.bucket_count) (hl : len < m.bucket_count) where
    abbrev stop : ℕ
    stop = slot m.bucket_count b len

    -- The cursor at distance `d`, with the pointer `i`.
    abbrev at : ℕ → ℕ → Cursor
    at i d = cursor i (b + d) (len - d)

    -- What is still to be searched from distance `d` on.
    rest : ℕ → Iterator
    rest d = search m b key stop (len - d) d

    rest_step :
        (d : ℕ)
        → d < len
        → rest d ≡ (
            if equal (m.collision_table (slot m.bucket_count b d)) b key
            then iterator
                (some b)
                (some (slot m.bucket_count b d))
                (in_collision (slot m.bucket_count b d))
            else rest (d + 1))
    unfolding rest search
    rest_step d h = let e : len - d ≡ suc (len - (d + 1)) = omega arith in rw e

    rest_end : rest len ≡ iterator (some b) (some stop) null
    unfolding rest search
    rest_end = let e : len - len ≡ 0 = omega arith in rw e

    advance-at : (i d : ℕ) → advance (at i d) ≡ at (i + 1) (d + 1)
    advance-at i d = ground arith

    check_lem :
        (next : Cursor → Iterator) (i d : ℕ)
        → i ≡ slot m.bucket_count b d
        → d < len
        → next (at (i + 1) (d + 1)) ≡ rest (d + 1)
        → check m b key stop next (at i d) ≡ rest d
    unfolding check
    check_lem next i d hi hd more =
        rw (rest_step d hd, hi, masked-slot m.bucket_count b d p hb (omega arith))
          (elim (Bool-cases (equal (m.collision_table (slot m.bucket_count b d)) b key)) [
            | inl hit ↦ rw hit
            | inr miss ↦ rw (miss, advance-at, ← hi, more)
          ])

    -- No wrap between distance `d` and the end, and `next` goes on correctly behind `k` more slots.
    record Run (next : Cursor → Iterator) (k i d : ℕ) : Type 0 where
      here : i ≡ slot m.bucket_count b d
      straight : i + (len - d) ≡ stop
      room : k + d ≤ len
      goes_on : k + d < len → next (at (i + k) (d + k)) ≡ rest (d + k)

    Run-suc :
        {next : Cursor → Iterator} {k i d : ℕ} → Run next (suc k) i d → Run next k (i + 1) (d + 1)
    Run-suc {next} {k} {i} {d} r = record {
      here = ground arith;
      straight = ground arith;
      room = omega arith;
      goes_on = λ h.
          let ei : i + 1 + k ≡ i + suc k = omega arith in
          let ed : d + 1 + k ≡ d + suc k = omega arith in rw (ei, ed) (r.goes_on (omega arith));
    }
      where
        open r use {here, straight, room}

    case1_lem :
        (next : Cursor → Iterator) (i d : ℕ)
        → Run next 1 i d
        → case1 m b key stop next (at i d) ≡ rest d
    unfolding case1
    case1_lem next i d r =
        check_lem _ i d r.here (omega (arith, r.room)) (elim (Bool-cases (i + 1 == stop)) [
          | inl e ↦
              let last : d + 1 ≡ len = ground (arith, r.straight, r.room) in rw (e, last, rest_end)
          | inr e ↦ rw e (r.goes_on (ground (arith, r.straight, r.room)))
        ])

    case2_lem :
        (next : Cursor → Iterator) (i d : ℕ)
        → Run next 2 i d
        → case2 m b key stop next (at i d) ≡ rest d
    unfolding case2
    case2_lem next i d r =
        check_lem _ i d r.here (omega (arith, r.room)) (case1_lem next (i + 1) (d + 1) (Run-suc r))

    case3_lem :
        (next : Cursor → Iterator) (i d : ℕ)
        → Run next 3 i d
        → case3 m b key stop next (at i d) ≡ rest d
    unfolding case3
    case3_lem next i d r =
        check_lem _ i d r.here (omega (arith, r.room)) (case2_lem next (i + 1) (d + 1) (Run-suc r))

    case4_lem :
        (next : Cursor → Iterator) (i d : ℕ)
        → Run next 4 i d
        → case4 m b key stop next (at i d) ≡ rest d
    unfolding case4
    case4_lem next i d r =
        check_lem _ i d r.here (omega (arith, r.room)) (case3_lem next (i + 1) (d + 1) (Run-suc r))

    -- The switch goes on with `next` only where more than four slots are left.
    switch_lem :
        (next : Cursor → Iterator) (d : ℕ)
        → d < len
        → slot m.bucket_count b d < stop
        → ((e : ℕ) → d ≤ e → e < len → next (at (slot m.bucket_count b e) e) ≡ rest e)
        → switch m b key stop next (at (slot m.bucket_count b d) d) ≡ rest d
    unfolding switch
    switch_lem next d hd up good = elim (Bool-cases (len - d == 1)) [
      | inl e ↦ rw e (case1_lem next _ d (run 1 (ground arith) (ground arith)))
      | inr e ↦ rw e (elim (Bool-cases (len - d == 2)) [
        | inl e' ↦ rw e' (case2_lem next _ d (run 2 (ground arith) (ground arith)))
        | inr e' ↦ rw e' (elim (Bool-cases (len - d == 3)) [
          | inl e'' ↦ rw e'' (case3_lem next _ d (run 3 (ground arith) (ground arith)))
          | inr e'' ↦ rw e'' (case4_lem next _ d (run 4 (ground arith) (ground arith)))
        ])
      ])
    ]
      where
        run : (k : ℕ) → k + d ≤ len → k ≤ 4 → Run next k (slot m.bucket_count b d) d
        run k fits few = record {
          here = refl;
          straight = ground arith;
          room = fits;
          goes_on = λ h.
              let e : slot m.bucket_count b d + k ≡ slot m.bucket_count b (d + k) = ground arith in
              rw e (good (d + k) (omega arith) (omega arith));
        }

    -- Where the loop goes on after an iteration.
    abbrev again : ℕ → Cursor → Iterator
    again fuel s = if s.current == stop then end_iterator m b key stop else loop m b key stop fuel s

    again_lem :
        (fuel d : ℕ)
        → d < len
        → (d + 1 < len
            → loop m b key stop fuel (at (slot m.bucket_count b (d + 1)) (d + 1)) ≡ rest (d + 1))
        → again fuel (rewind m.bucket_count (at (slot m.bucket_count b d + 1) (d + 1)))
          ≡ rest (d + 1)
    again_lem fuel d hd ih = rw back (elim (Bool-cases (slot m.bucket_count b (d + 1) == stop)) [
      | inl e ↦ let last : d + 1 ≡ len = ground arith in rw (e, last, rest_end)
      | inr e ↦ rw e (ih (ground arith))
    ])
      where
        back :
            rewind m.bucket_count (at (slot m.bucket_count b d + 1) (d + 1))
            ≡ at (slot m.bucket_count b (d + 1)) (d + 1)
        back = ground arith

    body_lem :
        (next : Cursor → Iterator) (d : ℕ)
        → d < len
        → ((e : ℕ)
            → d ≤ e
            → e < len
            → next (rewind m.bucket_count (at (slot m.bucket_count b e + 1) (e + 1)))
              ≡ rest (e + 1))
        → body m b key stop next (at (slot m.bucket_count b d) d) ≡ rest d
    unfolding body
    body_lem next d hd good = elim (Bool-cases (ltb (slot m.bucket_count b d) stop)) [
      | inl e ↦ rw e (
          switch_lem (check m b key stop (λ s'. next (rewind m.bucket_count s'))) d hd
            (ground arith) tail)
      | inr e ↦ rw e (tail d (omega arith) hd)
    ]
      where
        tail :
            (e : ℕ)
            → d ≤ e
            → e < len
            → check m b key stop
                (λ s'. next (rewind m.bucket_count s'))
                (at (slot m.bucket_count b e) e)
              ≡ rest e
        tail e he h =
            check_lem (λ s'. next (rewind m.bucket_count s')) (slot m.bucket_count b e) e refl h
              (good e he h)

    loop_lem :
        (fuel d : ℕ)
        → d < len
        → len ≤ fuel + d
        → loop m b key stop fuel (at (slot m.bucket_count b d) d) ≡ rest d
    unfolding loop
    loop_lem zero d hd h = absurd (omega arith)
    loop_lem (suc fuel) d hd h =
        body_lem (again fuel) d hd
          λ e de he. again_lem fuel e he (λ more. loop_lem fuel (e + 1) more (omega arith))

    rest_zero : rest 0 ≡ search m b key stop len 0
    unfolding rest
    rest_zero = let whole : len - 0 ≡ len = omega arith in rw whole

    -- The whole search from the bucket's own slot on.
    chain_lem : 0 < len → find_in_collision_chain m b len key ≡ search m b key stop len 0
    unfolding find_in_collision_chain
    chain_lem h =
        let start : cursor b b len ≡ at (slot m.bucket_count b 0) 0 = ground arith in
        rw (masked-slot m.bucket_count b len p hb hl, start)
          (loop_lem m.bucket_count 0 h (omega arith) ∙ rest_zero)

  -- The unrolled search of a collision chain returns what the plain search returns, slot by slot
  -- from the bucket on: the iterator of the first entry of the bucket with the key, or the end of
  -- the chain. The chain is not empty and shorter than the table, whose size is a power of two. The
  -- fuel is enough.
  pub find_in_collision_chain-search :
      (m : HashMap K V) (b len : ℕ) (key : K)
      → IsPowerOfTwo m.bucket_count
      → b < m.bucket_count
      → 0 < len
      → len < m.bucket_count
      → find_in_collision_chain m b len key ≡ search m b key (slot m.bucket_count b len) len 0
  find_in_collision_chain-search m b len key p hb h hl = chain_lem m b key len p hb hl h
