-- ===== src/Vector/Contents.antt =====
-- What a `DynamicArray` (include/vector.h) holds, and what the loops over its memory leave.
use turbokit.Base.{
  ℕ, zero, suc, ◌+◌, ◌-◌, ◌<◌, ◌≤◌, ◌≡◌, ◌≢◌, refl, true, false, some, ◌==◌, ltb, arith, Bool-cases,
  inl, inr, ◌∙◌,
}
use turbokit.Vector.Memory.{
  Slot, raw, live, moved, update, is_raw, destroy, construct, move_assign_slot, move_up,
}
use turbokit.Vector.Array.{DynamicArray}

module _ {A : Type 0} where
  -- The slots from `s` on hold the first `n` values of `f`.
  abbrev pub Live : (ℕ → Slot A) → (s n : ℕ) → (ℕ → A) → Type 0
  Live m s n f = (i : ℕ) → i < n → m (s + i) ≡ live (f i)

  -- The array is the sequence of the first `n` values of `f`.
  pub record Holds (v : DynamicArray A) (n : ℕ) (f : ℕ → A) : Type 0 where
    pub count : v.element_count ≡ n
    pub finish : v.current_end ≡ v.current_start + n
    pub fits : v.current_end ≤ v.memory_limit
    pub contents : Live v.memory v.current_start n f
    pub unallocated : v.allocated ≡ false → v.memory_limit ≡ 0

  -- Outside the slots from `i` on, `rounds` many, nothing changes.
  abbrev pub Same : (m m' : ℕ → Slot A) → (rounds i : ℕ) → Type 0
  Same m m' rounds i = (j : ℕ) → (j < i) → m' j ≡ m j

  pub record Destroyed (m m' : ℕ → Slot A) (rounds i : ℕ) : Type 0 where
    pub below : (j : ℕ) → j < i → m' j ≡ m j
    pub above : (j : ℕ) → i + rounds ≤ j → m' j ≡ m j

  pub destroy-Destroyed :
      (m : ℕ → Slot A) (rounds i : ℕ)
      → ((j : ℕ) → i ≤ j → j < i + rounds → is_raw (m j) ≡ false)
      → (m' : ℕ → Slot A) × (destroy m rounds i ≡ some m') × Destroyed m m' rounds i
  unfolding destroy
  destroy-Destroyed m zero i h = (m, refl, record { below = λ j l. refl; above = λ j l. refl })
  destroy-Destroyed m (suc rounds) i h =
      let here = h i (omega arith) (omega arith) in
      let (m', ran, d) =
        destroy-Destroyed (update m i raw) rounds (i + 1)
          (λ j l u. ground (arith, h j (omega arith) (omega arith))) in
      (
        m',
        rw here ran,
        record {
          below = λ j l. ground (arith, d.below j (omega arith));
          above = λ j l. ground (arith, d.above j (omega arith));
        },
      )

  pub record Constructed (a : A) (m m' : ℕ → Slot A) (rounds i : ℕ) : Type 0 where
    pub below : (j : ℕ) → j < i → m' j ≡ m j
    pub within : (j : ℕ) → i ≤ j → j < i + rounds → m' j ≡ live a

  pub construct-Constructed :
      (limit : ℕ) (a : A) (m : ℕ → Slot A) (rounds i : ℕ)
      → i + rounds ≤ limit
      → (m' : ℕ → Slot A) × (construct limit a m rounds i ≡ some m') × Constructed a m m' rounds i
  unfolding construct
  construct-Constructed limit a m zero i h =
      (m, refl, record { below = λ j l. refl; within = λ j l u. absurd (omega arith) })
  construct-Constructed limit a m (suc rounds) i h =
      let (m', ran, d) =
        construct-Constructed limit a (update m i (live a)) rounds (i + 1) (omega arith) in
      let room : ltb i limit ≡ true = ground arith in
      (
        m',
        rw room ran,
        record {
          below = λ j l. ground (arith, d.below j (omega arith));
          within = λ j l u. elim (Bool-cases (j == i)) [
            | inl s ↦ ground (arith, d.below j)
            | inr s ↦ d.within j (ground arith) (omega arith)
          ];
        },
      )

  move_assign_slot-ok :
      (m : ℕ → Slot A) (d s : ℕ) (a : A)
      → m s ≡ live a
      → is_raw (m d) ≡ false
      → d ≢ s
      → move_assign_slot m d s ≡ some (update (update m s moved) d (m s))
  unfolding move_assign_slot
  move_assign_slot-ok m d s a h nr ne =
      let apart : (d == s) ≡ false = ground arith in rw (h, nr, apart) refl

  move_up-step :
      (m m1 : ℕ → Slot A) (rounds d s : ℕ)
      → move_assign_slot m d s ≡ some m1
      → move_up m (suc rounds) d s ≡ move_up m1 rounds (d + 1) (s + 1)
  unfolding move_up
  move_up-step m m1 rounds d s e = rw (move_up, e) refl

  -- Elements moved down, or not at all where there are none.
  pub move_up-Live :
      (m : ℕ → Slot A) (rounds d s : ℕ) (f : ℕ → A)
      → d < s
      → Live m s rounds f
      → ((j : ℕ) → d ≤ j → j < s → is_raw (m j) ≡ false)
      → (m' : ℕ → Slot A) × (move_up m rounds d s ≡ some m')
        × Live m' d rounds f
        × ((j : ℕ) → j < d → m' j ≡ m j)
        × ((j : ℕ) → d + rounds ≤ j → j < s + rounds → is_raw (m' j) ≡ false)
  unfolding move_up
  move_up-Live m zero d s f h l nr = (
    m,
    refl,
    (λ i lt. absurd (omega arith)),
    (λ j lt. refl),
    λ j lt u. nr j (omega arith) (omega arith),
  )
  move_up-Live m (suc rounds) d s f h l nr =
      let here : m s ≡ live (f 0) = ground (arith, l 0) in
      let m1 = update (update m s moved) d (m s) in
      let (m', ran, lv, below, rest) =
        move_up-Live m1 rounds (d + 1) (s + 1) (λ i. f (i + 1)) (omega arith)
          (λ i lt. ground (arith, l (i + 1))) (λ j lt u. ground (arith, nr j)) in
      (
        m',
        move_up-step m m1 rounds d s (
              move_assign_slot-ok m d s (f 0) here (nr d (omega arith) (omega arith))
                (ground arith))
            ∙ ran,
        (λ i lt. elim (Bool-cases (i == 0)) [
          | inl z ↦ let zero_i : i ≡ 0 = ground arith in ground (arith, below d)
          | inr z ↦ ground (arith, lv (i - 1))
        ]),
        (λ j lt. ground (arith, below j (omega arith))),
        (λ j lt u. rest j (omega arith) (omega arith)),
      )
