-- ===== src/Vector/InsertAt.antt =====
-- `insert_at` (include/vector.h).
use turbokit.Base.{
  ℕ, ◌+◌, ◌-◌, ◌<◌, ◌≤◌, ◌≡◌, refl, true, false, some, ◌==◌, ltb, arith, if◌then◌else◌, Bool-cases,
  inl, inr,
}
use turbokit.Vector.Memory.{Slot, live, Element, update, is_raw, memmove, relocate_elements}
use turbokit.Vector.Array.{Result, ok, ◌>>=◌, DynamicArray, insert_at, move_in, emplace_back}
use turbokit.Vector.Contents.{Live, Holds}
use turbokit.Vector.Append.{make_room-Holds, emplace_back-Holds}

-- The sequence with `a` in front of the element at `i`.
abbrev pub put : {A : Type 0} → ℕ → A → (ℕ → A) → ℕ → A
put i a f j = if ltb j i then f j else if j == i then a else f (j - 1)

abbrev last_position : {A : Type 0} → DynamicArray A → Result (DynamicArray A × ℕ)
last_position w = ok (w, w.element_count - 1)

module _ {A : Type 0} (e : Element) (trivial : e.trivial ≡ true) where
  inside :
      (w : DynamicArray A) (n i : ℕ) (f : ℕ → A) (a : A)
      → Holds w n f
      → i < n
      → w.current_end < w.memory_limit
      → (m : ℕ → Slot A) × (relocate_elements e
            (update w.memory w.current_end (w.memory (w.current_end - 1)))
            (w.current_start + i + 1)
            (w.current_start + i)
            w.current_end
          ≡ some m)
        × Live (update m (w.current_start + i) (live a)) w.current_start (n + 1) (put i a f)
  unfolding relocate_elements memmove
  inside w n i f a h lt room = (
    memmove (update w.memory w.current_end (w.memory (w.current_end - 1))) (w.current_start + i + 1)
        (w.current_start + i) (w.current_end - (w.current_start + i)),
    simp trivial refl,
    λ j l. ground (arith, h.finish, h.contents j, h.contents (j - 1)),
  )

  moved_in :
      (m : ℕ → Slot A) (d s : ℕ) → is_raw (m s) ≡ false → move_in e m d s ≡ some (update m d (m s))
  moved_in m d s h = simp (trivial, h) refl

  at_end :
      (v : DynamicArray A) (n : ℕ) (f : ℕ → A) (a : A)
      → Holds v n f
      → (w : DynamicArray A) × ((emplace_back e a v >>= last_position) ≡ ok (w, n))
        × Holds w (n + 1) (put n a f)
  at_end v n f a h =
      let (w, ran, x) = emplace_back-Holds e v n f a h in
      let index : w.element_count - 1 ≡ n = omega (arith, x.count) in
      (
        w,
        rw (ran, index) refl,
        record {
          count = x.count;
          finish = x.finish;
          fits = x.fits;
          contents = λ j lt. ground (arith, x.contents j lt);
          unallocated = x.unallocated;
        },
      )

  -- For trivially copyable elements, `insert_at` puts the value in front of the element at the
  -- position, or at the end, keeps the order of the others, and returns the position.
  pub insert_at-Holds :
      (v : DynamicArray A) (n i : ℕ) (f : ℕ → A) (a : A)
      → Holds v n f
      → i ≤ n
      → (w : DynamicArray A) × (insert_at e i a v ≡ ok (w, i)) × Holds w (n + 1) (put i a f)
  unfolding insert_at
  insert_at-Holds v n i f a h le = elim (Bool-cases (v.current_start + i == v.current_end)) [
    | inl last ↦
        let same : i ≡ n = ground (arith, h.finish) in
        let (w, ran, x) = at_end v n f a h in rw same (w, rw (rw same at last) ran, x)
    | inr earlier ↦
        let (w, ran, x, room) = make_room-Holds e v n f h in
        let lt : i < n = ground (arith, h.finish) in
        let some_there : is_raw (w.memory (w.current_end - 1)) ≡ false =
          ground (arith, x.contents (n - 1), x.finish) in
        let (m, went, l) = inside w n i f a x lt room in
        (
          record w {
            memory = update m (w.current_start + i) (live a);
            current_end = w.current_end + 1;
            element_count = w.element_count + 1;
          },
          rw (earlier, ran, moved_in w.memory w.current_end (w.current_end - 1) some_there, went)
              refl,
          record {
            count = omega (arith, x.count);
            finish = omega (arith, x.finish);
            fits = omega arith;
            contents = l;
            unallocated = x.unallocated;
          },
        )
  ]
