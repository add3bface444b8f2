-- ===== src/Vector/InsertMoved.antt =====
-- `insert_at` (include/vector.h) of elements that are not trivially copyable.
use turbokit.Base.{
  ℕ, zero, suc, ◌+◌, ◌-◌, ◌<◌, ◌≤◌, ◌≡◌, refl, false, some, ◌==◌, leb, arith, Bool-cases, inl, inr,
  ◌∙◌, ap,
}
use turbokit.Vector.Memory.{
  Slot, live, moved, Element, update, is_raw, move_construct, relocate_elements, move_down,
  move_assign_slot,
}
use turbokit.Vector.Array.{ok, DynamicArray, insert_at, move_in}
use turbokit.Vector.Contents.{Live, Holds}
use turbokit.Vector.Append.{make_room-Holds}
use turbokit.Vector.InsertAt.{put}

module _ {A : Type 0} where
  assigned :
      (m : ℕ → Slot A) (d s : ℕ)
      → is_raw (m s) ≡ false
      → is_raw (m d) ≡ false
      → s < d
      → move_assign_slot m d s ≡ some (update (update m s moved) d (m s))
  unfolding move_assign_slot
  assigned m d s hs hd lt = let apart : (d == s) ≡ false = ground arith in rw (hs, hd, apart) refl

  move_down-step :
      (m m1 : ℕ → Slot A) (rounds d s : ℕ)
      → move_assign_slot m (d + rounds) (s + rounds) ≡ some m1
      → move_down m (suc rounds) d s ≡ move_down m1 rounds d s
  unfolding move_down
  move_down-step m m1 rounds d s e = rw (move_down, e) refl

  -- Elements moved up by the loop that goes down.
  move_down-Live :
      (m : ℕ → Slot A) (rounds d s : ℕ) (f : ℕ → A)
      → s < d
      → Live m s rounds f
      → ((j : ℕ) → s + rounds ≤ j → j < d + rounds → is_raw (m j) ≡ false)
      → (m' : ℕ → Slot A) × (move_down m rounds d s ≡ some m')
        × Live m' d rounds f
        × ((j : ℕ) → j < s → m' j ≡ m j)
        × ((j : ℕ) → d + rounds ≤ j → m' j ≡ m j)
  unfolding move_down
  move_down-Live m zero d s f h l nr =
      (m, refl, (λ i lt. absurd (omega arith)), (λ j lt. refl), λ j le. refl)
  move_down-Live m (suc rounds) d s f h l nr =
      let here = l rounds (omega arith) in
      let m1 = update (update m (s + rounds) moved) (d + rounds) (m (s + rounds)) in
      let filled : is_raw (m (d + rounds)) ≡ false = ground (arith, nr (d + rounds)) in
      let (m', ran, lv, below, above) =
        move_down-Live m1 rounds d s f h (λ i lt. ground (arith, l i))
          (λ j lt u. ground (arith, nr j)) in
      (
        m',
        move_down-step m m1 rounds d s
              (assigned m (d + rounds) (s + rounds) (ap is_raw here) filled (omega arith))
            ∙ ran,
        (λ i lt. elim (Bool-cases (i == rounds)) [
          | inl e ↦
              let same : i ≡ rounds = ground arith in rw same (ground (arith, above (d + rounds)))
          | inr e ↦ lv i (ground arith)
        ]),
        (λ j lt. ground (arith, below j)),
        λ j le. ground (arith, above j (omega arith)),
      )

module _ {A : Type 0} (e : Element) (string : e.trivial ≡ false) where
  moved_out :
      (m : ℕ → Slot A) (d s : ℕ)
      → is_raw (m s) ≡ false
      → move_in e m d s ≡ some (update (update m s moved) d (m s))
  unfolding move_construct
  moved_out m d s h = simp (string, h) refl

  -- With `k` elements behind the place.
  inside :
      (m : ℕ → Slot A) (s n i k : ℕ) (f : ℕ → A)
      → n ≡ i + suc k
      → Live m s n f
      → (m' : ℕ → Slot A) × (relocate_elements e
            (update (update m (s + n - 1) moved) (s + n) (m (s + n - 1)))
            (s + i + 1)
            (s + i)
            (s + n)
          ≡ some m')
        × ((j : ℕ) → j < i → m' (s + j) ≡ live (f j))
        × ((j : ℕ) → i < j → j < n → m' (s + j) ≡ live (f (j - 1)))
        × (m' (s + n) ≡ moved)
  unfolding relocate_elements
  inside m s n i k f size l =
      let start = update (update m (s + n - 1) moved) (s + n) (m (s + n - 1)) in
      let m1 = update (update start (s + i + k) moved) (s + i + 1 + k) (start (s + i + k)) in
      let last_live : m (s + n - 1) ≡ live (f (n - 1)) = ground (arith, l (n - 1)) in
      let from : s + i + k ≡ s + n - 1 = omega arith in
      let to : s + i + 1 + k ≡ s + n = omega arith in
      let from_there : is_raw (start (s + i + k)) ≡ false = ground arith in
      let to_there : is_raw (start (s + i + 1 + k)) ≡ false = ground arith in
      let first =
        move_down-step start m1 k (s + i + 1) (s + i)
          (assigned start (s + i + 1 + k) (s + i + k) from_there to_there (omega arith)) in
      let (m', ran, lv, below, above) =
        move_down-Live m1 k (s + i + 1) (s + i) (λ j. f (i + j)) (omega arith)
          (λ j lt. ground (arith, l (i + j))) (λ j lt u. ground arith) in
      let rounds : s + n - (s + i) ≡ suc k = omega arith in
      let up : leb (s + i + 1) (s + i) ≡ false = ground arith in
      (
        m',
        simp (string, up, rounds) (first ∙ ran),
        (λ j lt. ground (arith, below (s + j), l j)),
        (λ j lt u. ground (arith, lv (j - (i + 1)))),
        ground (arith, above (s + n)),
      )

  -- For elements that are not trivially copyable, `insert_at` in front of an element puts the value
  -- there and moves the following elements up, but the last place then holds a moved-from object: the
  -- value of the last element is lost.
  pub insert_at-moved :
      (v : DynamicArray A) (n i : ℕ) (f : ℕ → A) (a : A)
      → Holds v n f
      → i < n
      → (w : DynamicArray A) × (insert_at e i a v ≡ ok (w, i))
        × (w.element_count ≡ n + 1)
        × Live w.memory w.current_start n (put i a f)
        × (w.memory (w.current_start + n) ≡ moved)
  unfolding insert_at
  insert_at-moved v n i f a h lt =
      let (w, ran, x, room) = make_room-Holds e v n f h in
      let earlier : (v.current_start + i == v.current_end) ≡ false = ground (arith, h.finish) in
      let some_there : is_raw (w.memory (w.current_end - 1)) ≡ false =
        ground (arith, x.contents (n - 1), x.finish) in
      let (m, went, low, high, lost) =
        inside w.memory w.current_start n i (n - suc i) f (omega arith) x.contents in
      (
        record w {
          memory = update m (w.current_start + i) (live a);
          current_end = w.current_end + 1;
          element_count = w.element_count + 1;
        },
        rw
            (
              earlier,
              ran,
              moved_out w.memory w.current_end (w.current_end - 1) some_there,
              x.finish,
              went,
            )
            refl,
        omega (arith, x.count),
        (λ j l. ground (arith, low j, high j)),
        ground arith,
      )
