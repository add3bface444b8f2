-- ===== src/Vector/Append.antt =====
-- The operations of include/vector.h that make room and put elements at the end.
use turbokit.Base.{
  ℕ, ◌+◌, ◌-◌, ◌*◌, ◌<◌, ◌≤◌, ◌≡◌, max, refl, true, none, some, ◌==◌, ltb, leb, arith,
  if◌then◌else◌, Bool-cases, inl, inr, ◌∙◌,
}
use turbokit.Vector.Memory.{Slot, raw, Element, memcpy, transfer}
use turbokit.Vector.Array.{
  ok, DynamicArray, get_capacity, allocate_memory, reserve, grow_capacity, make_room, emplace_back,
  resize,
}
use turbokit.Vector.Contents.{Live, Holds, construct-Constructed, destroy-Destroyed}
use turbokit.Vector.Relocate.{transfer-Live, memcpy-Live}

module _ {A : Type 0} (e : Element) where
  -- The memory that `allocate_memory` makes has the elements at its start.
  moved_memory :
      (v : DynamicArray A) (n : ℕ) (f : ℕ → A) (q : ℕ)
      → Holds v n f
      → n ≤ q
      → (m : ℕ → Slot A) × ((if v.allocated
            then (if e.trivial
                then (if leb v.element_count q
                    then some (memcpy v.memory v.current_start v.element_count)
                    else none)
                else transfer q v.memory
                    (λ i. raw)
                    (v.current_end - v.current_start)
                    v.current_start
                    0)
            else some (λ i. raw))
          ≡ some m)
        × Live m 0 n f
  moved_memory v n f q h room = elim (Bool-cases v.allocated) [
    | inr a ↦
        rw a ((λ i. raw), refl, λ i lt. absurd (omega (arith, h.unallocated a, h.fits, h.finish)))
    | inl a ↦ elim (Bool-cases e.trivial) [
      | inl t ↦
          let enough : leb n q ≡ true = ground arith in
          rw (a, t, h.count, enough)
            (
              memcpy v.memory v.current_start n,
              refl,
              memcpy-Live v.memory v.current_start n f h.contents,
            )
      | inr t ↦
          let count : v.current_end - v.current_start ≡ n = omega (arith, h.finish) in
          let (m, ran, lv, below) =
            transfer-Live q v.memory (λ i. raw) (v.current_end - v.current_start) v.current_start 0
              f (omega arith) (λ i lt. h.contents i (omega arith)) in
          rw (a, t) (m, ran, λ i lt. lv i (omega arith))
    ]
  ]

  pub record Allocated (q : ℕ) (n : ℕ) (f : ℕ → A) (w : DynamicArray A) : Type 0 where
    pub holds : Holds w n f
    pub limit : w.memory_limit ≡ q
    pub start : w.current_start ≡ 0

  pub allocate_memory-Allocated :
      (v : DynamicArray A) (n : ℕ) (f : ℕ → A) (q : ℕ)
      → Holds v n f
      → n ≤ q
      → (w : DynamicArray A) × (allocate_memory e q v ≡ ok w) × Allocated q n f w
  unfolding allocate_memory
  allocate_memory-Allocated v n f q h room =
      let (m, ran, lv) = moved_memory v n f q h room in
      (
        record v {
          allocated = true;
          memory = m;
          memory_limit = q;
          current_start = 0;
          current_end = v.element_count;
        },
        rw ran refl,
        record {
          holds = record {
            count = h.count;
            finish = omega (arith, h.count);
            fits = omega (arith, h.count);
            contents = lv;
            unallocated = λ a. cc;
          };
          limit = refl;
          start = refl;
        },
      )

  -- `reserve` keeps the elements, and afterwards there is room for as many as asked for.
  pub reserve-Holds :
      (v : DynamicArray A) (n : ℕ) (f : ℕ → A) (q : ℕ)
      → Holds v n f
      → (w : DynamicArray A) × (reserve e q v ≡ ok w) × Holds w n f × (q ≤ get_capacity w)
  unfolding reserve
  reserve-Holds v n f q h = elim (Bool-cases (leb q (get_capacity v))) [
    | inl enough ↦ rw enough (v, refl, h, ground arith)
    | inr more ↦
        let (w, ran, a) = allocate_memory-Allocated v n f q h (ground (arith, h.finish, h.fits)) in
        (w, rw more ran, a.holds, omega (arith, a.limit, a.start))
  ]

  pub make_room-Holds :
      (v : DynamicArray A) (n : ℕ) (f : ℕ → A)
      → Holds v n f
      → (w : DynamicArray A) × (make_room e v ≡ ok w)
        × Holds w n f
        × (w.current_end < w.memory_limit)
  unfolding make_room grow_capacity
  make_room-Holds v n f h = elim (Bool-cases (v.current_end == v.memory_limit)) [
    | inr room ↦ rw room (v, refl, h, ground (arith, h.fits))
    | inl full ↦
        let at : v.current_end ≡ v.memory_limit = ground arith in
        let capacity : get_capacity v ≡ n = omega (arith, h.finish) in
        let all : (get_capacity v == v.element_count) ≡ true = ground (arith, h.count) in
        let (w, ran, a) =
          allocate_memory-Allocated v n f (max (get_capacity v * 2) 16) h
            (omega (arith, capacity)) in
        (w, rw (full, all) ran, a.holds, omega (arith, a.limit, a.start, a.holds.finish, capacity))
  ]

  -- `emplace_back` and `append` end, put the value behind the elements, and keep all of them, whether
  -- or not the memory is full.
  pub emplace_back-Holds :
      (v : DynamicArray A) (n : ℕ) (f : ℕ → A) (a : A)
      → Holds v n f
      → (w : DynamicArray A) × (emplace_back e a v ≡ ok w)
        × Holds w (n + 1) (λ i. if i == n then a else f i)
  unfolding emplace_back
  emplace_back-Holds v n f a h =
      let (w, ran, x, room) = make_room-Holds v n f h in
      let (m, built, c) =
        construct-Constructed w.memory_limit a w.memory 1 w.current_end (omega arith) in
      (
        record w {
          memory = m;
          current_end = w.current_end + 1;
          element_count = w.element_count + 1;
        },
        rw (ran, built) refl,
        record {
          count = omega (arith, x.count);
          finish = omega (arith, x.finish);
          fits = omega arith;
          contents = λ i lt. elim (Bool-cases (i == n)) [
            | inl s ↦
                let same : i ≡ n = ground arith in
                let here : w.current_start + i ≡ w.current_end = omega (arith, x.finish) in
                rw (s, here) (c.within w.current_end (omega arith) (omega arith))
            | inr s ↦ rw s (
                c.below (w.current_start + i) (ground (arith, x.finish))
                ∙ x.contents i (ground arith))
          ];
          unallocated = x.unallocated;
        },
      )

  -- `resize` to `k` elements keeps the first `k` of them, or all and adds new ones of the value
  -- `ElementType()` behind them.
  pub resize-Holds :
      (v : DynamicArray A) (n : ℕ) (f : ℕ → A) (a : A) (k : ℕ)
      → Holds v n f
      → (w : DynamicArray A) × (resize e a k v ≡ ok w) × Holds w k (λ i. if ltb i n then f i else a)
  unfolding resize
  resize-Holds v n f a k h = elim (Bool-cases (ltb k v.element_count)) [
    | inl less ↦
        let (m, ran, d) =
          destroy-Destroyed v.memory (v.current_end - (v.current_start + k)) (v.current_start + k)
            (λ j l u. ground (arith, h.count, h.contents (j - v.current_start), h.finish)) in
        (
          record v { memory = m; current_end = v.current_start + k; element_count = k },
          rw (less, ran) refl,
          record {
            count = refl;
            finish = refl;
            fits = ground (arith, h.count, h.fits, h.finish);
            contents = λ i lt.
                let old : ltb i n ≡ true = ground (arith, h.count) in
                rw old (
                  d.below (v.current_start + i) (omega arith)
                  ∙ h.contents i (ground (arith, h.count)));
            unallocated = h.unallocated;
          },
        )
    | inr keep ↦ elim (Bool-cases (ltb v.element_count k)) [
      | inr same ↦
          let equal : k ≡ n = ground (arith, h.count) in
          (
            record v { current_end = v.current_start + k; element_count = k },
            rw (keep, same) refl,
            record {
              count = refl;
              finish = refl;
              fits = ground (arith, h.count, h.fits, h.finish);
              contents = λ i lt.
                  let old : ltb i n ≡ true = ground (arith, h.count) in
                  rw old (h.contents i (ground (arith, h.count)));
              unallocated = h.unallocated;
            },
          )
      | inl more ↦
          let (w, ran, x, room) = reserve-Holds v n f k h in
          let (m, built, c) =
            construct-Constructed w.memory_limit a w.memory (w.current_start + k - w.current_end)
              w.current_end (ground (arith, h.count, x.finish, x.fits)) in
          (
            record w { memory = m; current_end = w.current_start + k; element_count = k },
            rw (keep, more, ran, built) refl,
            record {
              count = refl;
              finish = refl;
              fits = ground (arith, x.fits, x.finish);
              contents = λ i lt. elim (Bool-cases (ltb i n)) [
                | inl old ↦ rw old (
                    c.below (w.current_start + i) (ground (arith, x.finish))
                    ∙ x.contents i (ground arith))
                | inr added ↦ rw added (
                    c.within (w.current_start + i) (ground (arith, x.finish))
                      (ground (arith, x.finish)))
              ];
              unallocated = x.unallocated;
            },
          )
    ]
  ]
