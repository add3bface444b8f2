-- ===== src/Vector/Drop.antt =====
-- The branches of `remove_range`, and `clear` (include/vector.h).
use turbokit.Base.{
  ℕ, ◌+◌, ◌-◌, ◌*◌, ◌/◌, ◌<◌, ◌≤◌, ◌≡◌, refl, true, false, not, none, some, ◌==◌, ltb, leb, arith,
  if◌then◌else◌, Bool-cases, inl, inr, ◌||◌, ◌&&◌, ◌∙◌,
}
use turbokit.Vector.Memory.{Slot, Element, destroy, memmove, relocate_elements, compact, move_up}
use turbokit.Vector.Array.{ok, DynamicArray, is_empty, drop_front, drop_inside, rewind_empty, clear}
use turbokit.Vector.Contents.{Live, Holds, destroy-Destroyed}
use turbokit.Vector.Relocate.{memmove-Live, relocate-Relocated, compact-Live}

-- The sequence without the elements from `a` on and before `b`.
abbrev pub cut : {A : Type 0} → (a b : ℕ) → (ℕ → A) → ℕ → A
cut a b f i = if ltb i a then f i else f (i + (b - a))

module _ {A : Type 0} where
  pub rewind_empty-Holds :
      (v : DynamicArray A) (n : ℕ) (f : ℕ → A) → Holds v n f → Holds (rewind_empty v) n f
  rewind_empty-Holds v n f h = elim (Bool-cases (is_empty v)) [
    | inr some_left ↦ simp some_left h
    | inl none_left ↦ simp none_left (record {
      count = h.count;
      finish = ground (arith, h.finish);
      fits = omega arith;
      contents = λ i lt. absurd (ground (arith, h.finish));
      unallocated = h.unallocated;
    })
  ]

  -- `clear` leaves no element and keeps the memory.
  pub clear-Holds :
      (v : DynamicArray A) (n : ℕ) (f g : ℕ → A)
      → Holds v n f
      → (w : DynamicArray A) × (clear v ≡ ok w) × Holds w 0 g × (w.memory_limit ≡ v.memory_limit)
  unfolding clear
  clear-Holds v n f g h =
      let (m, ran, d) =
        destroy-Destroyed v.memory (v.current_end - v.current_start) v.current_start
          (λ j l u. ground (arith, h.contents (j - v.current_start), h.finish)) in
      (
        record v { memory = m; current_start = 0; current_end = 0; element_count = 0 },
        rw ran refl,
        record {
          count = refl;
          finish = omega arith;
          fits = omega arith;
          contents = λ i lt. absurd (omega arith);
          unallocated = h.unallocated;
        },
        refl,
      )

module _ {A : Type 0} (e : Element) where
  -- The memory of `drop_front` where the elements go to the start.
  compacted :
      (m : ℕ → Slot A) (s f n : ℕ) (g : ℕ → A)
      → s + n ≡ f
      → n < s
      → Live m s n g
      → (m' : ℕ → Slot A) × ((if e.trivial
            then relocate_elements e m 0 s f
            else elim (compact (f + 1) s f m 0 s) [
              | none ↦ none
              | some (m2, mem_ptr, curr_ptr) ↦ elim (relocate_elements e m2 mem_ptr curr_ptr f) [
                | none ↦ none
                | some m3 ↦ destroy m3 (f - curr_ptr) curr_ptr
              ]
            ])
          ≡ some m')
        × Live m' 0 n g
  unfolding relocate_elements move_up destroy
  compacted m s f n g hf less l = elim (Bool-cases e.trivial) [
    | inl t ↦
        let count : f - s ≡ n = omega arith in
        (
          memmove m 0 s (f - s),
          simp t refl,
          λ i lt. memmove-Live m 0 s (f - s) g (λ j u. l j (omega arith)) i (omega arith),
        )
    | inr t ↦
        let (m', ran, lv, below) =
          compact-Live n (f + 1) s f m 0 s g hf (omega arith) (omega arith) (omega arith) l in
        let gone : f - f ≡ 0 = omega arith in
        let down : leb (0 + n) f ≡ true = ground arith in (m', simp (t, ran, down, gone) refl, lv)
  ]

  -- The elements from `k` on remain.
  pub drop_front-Holds :
      (v : DynamicArray A) (n k : ℕ) (g : ℕ → A)
      → v.element_count ≡ n + k
      → v.current_end ≡ v.current_start + k + n
      → v.current_end ≤ v.memory_limit
      → Live v.memory (v.current_start + k) n g
      → (v.allocated ≡ false → v.memory_limit ≡ 0)
      → (w : DynamicArray A) × (drop_front e k (v.current_start + k) v ≡ ok w) × Holds w n g
  unfolding drop_front
  drop_front-Holds v n k g count finish fits l un =
      let s = v.current_start + k in
      let left : v.element_count - k ≡ n = omega arith in
      elim (Bool-cases (
        (s == v.current_end) || not (ltb (v.element_count - k) s && leb (1024 * 512 / e.size) s))) [
          | inl stay ↦ (
            record v { current_start = s; element_count = v.element_count - k },
            rw stay refl,
            record { count = left; finish = finish; fits = fits; contents = l; unallocated = un },
          )
          | inr go ↦
              let less : n < s = ground arith in
              let (m, ran, lv) = compacted v.memory s v.current_end n g (omega arith) less l in
              (
                record v {
                  memory = m;
                  current_start = 0;
                  current_end = v.element_count - k;
                  element_count = v.element_count - k;
                },
                rw (go, ran) refl,
                record {
                  count = left;
                  finish = omega arith;
                  fits = omega arith;
                  contents = lv;
                  unallocated = un;
                },
              )
        ]

  pub drop_inside-Holds :
      (v : DynamicArray A) (n a b : ℕ) (f : ℕ → A)
      → a < b
      → b ≤ n
      → Holds v n f
      → (w : DynamicArray A) × (drop_inside e (v.current_start + a) (v.current_start + b) v ≡ ok w)
        × Holds w (n - (b - a)) (cut a b f)
  unfolding drop_inside
  drop_inside-Holds v n a b f less hb h =
      let d = v.current_start + a in
      let s = v.current_start + b in
      let (m, ran, x) =
        relocate-Relocated e v.memory d s v.current_end (λ i. f (i + b)) (omega arith)
          (omega (arith, h.finish))
          (λ i lt.
            let at : s + i ≡ v.current_start + (i + b) = omega arith in
            rw at (h.contents (i + b) (omega (arith, h.finish))))
          (λ j l u. ground (arith, h.contents (j - v.current_start), h.finish)) in
      let (m', gone, y) =
        destroy-Destroyed m (s - d) (v.current_end - (s - d))
          (λ j l u. x.rest j (omega (arith, h.finish)) (omega (arith, h.finish))) in
      (
        record v {
          memory = m';
          current_end = v.current_end - (s - d);
          element_count = v.element_count - (s - d);
        },
        rw (ran, gone) refl,
        record {
          count = omega (arith, h.count);
          finish = omega (arith, h.finish);
          fits = omega (arith, h.fits);
          contents = λ i lt.
              y.below (v.current_start + i) (omega (arith, h.finish))
              ∙ elim (Bool-cases (ltb i a)) [
                | inl early ↦
                    rw early
                      (x.below (v.current_start + i) (ground arith) ∙ h.contents i (omega arith))
                | inr late ↦
                    let ge : a ≤ i = ground arith in
                    let at : v.current_start + i ≡ d + (i - a) = omega arith in
                    let value : i - a + b ≡ i + (b - a) = omega arith in
                    let c = x.contents (i - a) (omega (arith, h.finish)) in rw (late, at, ← value) c
              ];
          unallocated = h.unallocated;
        },
      )
