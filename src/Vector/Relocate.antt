-- ===== src/Vector/Relocate.antt =====
-- The elements after `relocate_elements`, `allocate_memory` and the loop of `remove_range` that moves
-- them to the start (include/vector.h).
use turbokit.Base.{
  ℕ, zero, suc, ◌+◌, ◌-◌, ◌<◌, ◌≤◌, ◌≡◌, ◌≢◌, refl, true, false, some, ◌==◌, leb, arith, Bool-cases,
  inl, inr, ◌∙◌, ◌⊎◌,
}
use turbokit.Vector.Memory.{
  Slot, raw, live, moved, Element, update, is_raw, move_construct, memmove, memcpy, compact,
  transfer, relocate_elements,
}
use turbokit.Vector.Contents.{Live, move_up-Live}

module _ {A : Type 0} where
  pub memmove-Live :
      (m : ℕ → Slot A) (d s n : ℕ) (f : ℕ → A) → Live m s n f → Live (memmove m d s n) d n f
  unfolding memmove
  memmove-Live m d s n f l i lt =
      let back : s + (d + i - d) ≡ s + i = omega arith in ground (arith, l i lt, back)

  pub memmove_outside :
      (m : ℕ → Slot A) (d s n j : ℕ) → (j < d) ⊎ (d + n ≤ j) → memmove m d s n j ≡ m j
  unfolding memmove
  memmove_outside m d s n j out = ground arith

  -- What `relocate_elements` to a lower place leaves: the elements there, and no slot without an
  -- object up to the old end.
  pub record Relocated (m m' : ℕ → Slot A) (d s n : ℕ) (f : ℕ → A) : Type 0 where
    pub contents : Live m' d n f
    pub below : (j : ℕ) → j < d → m' j ≡ m j
    pub rest : (j : ℕ) → d + n ≤ j → j < s + n → is_raw (m' j) ≡ false

  pub relocate-Relocated :
      (e : Element) (m : ℕ → Slot A) (d s finish : ℕ) (f : ℕ → A)
      → d < s
      → s ≤ finish
      → Live m s (finish - s) f
      → ((j : ℕ) → d ≤ j → j < s → is_raw (m j) ≡ false)
      → (m' : ℕ → Slot A) × (relocate_elements e m d s finish ≡ some m')
        × Relocated m m' d s (finish - s) f
  unfolding relocate_elements
  relocate-Relocated e m d s finish f h hf l nr = elim (Bool-cases e.trivial) [
    | inl t ↦
        let n = finish - s in
        (
          memmove m d s n,
          simp t refl,
          record {
            contents = memmove-Live m d s n f l;
            below = λ j lt. memmove_outside m d s n j (inl lt);
            rest = λ j lt u. ground (arith, memmove_outside m d s n j (inr lt), nr j, l (j - s));
          },
        )
    | inr t ↦
        let (m', ran, lv, below, rest) = move_up-Live m (finish - s) d s f h l nr in
        let down : leb d s ≡ true = ground arith in
        (m', simp (t, down) ran, record { contents = lv; below = below; rest = rest })
  ]

  move_construct-ok :
      (m : ℕ → Slot A) (d s : ℕ) (a : A)
      → m s ≡ live a
      → move_construct m d s ≡ some (update (update m s moved) d (m s))
  unfolding move_construct
  move_construct-ok m d s a h = rw h refl

  compact_step :
      (fuel s f : ℕ) (m m1 : ℕ → Slot A) (p q : ℕ)
      → p ≢ s
      → q ≢ f
      → move_construct m p q ≡ some m1
      → compact (suc fuel) s f m p q ≡ compact fuel s f m1 (p + 1) (q + 1)
  unfolding compact
  compact_step fuel s f m m1 p q hp hq h =
      let a : (p == s) ≡ false = ground arith in
      let b : (q == f) ≡ false = ground arith in rw (a, b, h) refl

  compact_stop :
      (fuel s f : ℕ) (m : ℕ → Slot A) (p : ℕ) → compact (suc fuel) s f m p f ≡ some (m, p, f)
  unfolding compact
  compact_stop fuel s f m p = ground arith

  -- Where the free space in front is larger than the elements, all of them are moved by the loop.
  pub compact-Live :
      (n fuel s f : ℕ) (m : ℕ → Slot A) (p q : ℕ) (g : ℕ → A)
      → q + n ≡ f
      → n < fuel
      → p + n ≤ s
      → s ≤ q
      → Live m q n g
      → (m' : ℕ → Slot A) × (compact fuel s f m p q ≡ some (m', p + n, f))
        × Live m' p n g
        × ((j : ℕ) → j < p → m' j ≡ m j)
  compact-Live n zero s f m p q g e hf room above l = absurd (omega arith)
  compact-Live zero (suc fuel) s f m p q g e hf room above l =
      let stop : q ≡ f = omega arith in
      let same : p + 0 ≡ p = omega arith in
      (m, rw (stop, same) (compact_stop fuel s f m p), (λ i lt. absurd (omega arith)), λ j lt. refl)
  compact-Live (suc n) (suc fuel) s f m p q g e hf room above l =
      let here : m q ≡ live (g 0) = ground (arith, l 0) in
      let m1 = update (update m q moved) p (m q) in
      let (m', ran, lv, below) =
        compact-Live n fuel s f m1 (p + 1) (q + 1) (λ i. g (i + 1)) (omega arith) (omega arith)
          (omega arith) (omega arith) (λ i lt. ground (arith, l (i + 1))) in
      let count : p + suc n ≡ p + 1 + n = omega arith in
      (
        m',
        compact_step fuel s f m m1 p q (ground arith) (ground arith)
              (move_construct-ok m p q (g 0) here)
            ∙ rw count ran,
        (λ i lt. elim (Bool-cases (i == 0)) [
          | inl z ↦ let zero_i : i ≡ 0 = ground arith in ground (arith, below p)
          | inr z ↦ ground (arith, lv (i - 1))
        ]),
        λ j lt. ground (arith, below j (omega arith)),
      )

  transfer_step :
      (limit : ℕ) (old new : ℕ → Slot A) (n s d : ℕ) (a : A)
      → old s ≡ live a
      → d < limit
      → transfer limit old new (suc n) s d
        ≡ transfer limit (update old s raw) (update new d (old s)) n (s + 1) (d + 1)
  unfolding transfer
  transfer_step limit old new n s d a h lt =
      let room : leb limit d ≡ false = ground arith in rw (h, room) refl

  pub transfer-Live :
      (limit : ℕ) (old new : ℕ → Slot A) (n s d : ℕ) (f : ℕ → A)
      → d + n ≤ limit
      → Live old s n f
      → (m' : ℕ → Slot A) × (transfer limit old new n s d ≡ some m')
        × Live m' d n f
        × ((j : ℕ) → j < d → m' j ≡ new j)
  unfolding transfer
  transfer-Live limit old new zero s d f room l =
      (new, refl, (λ i lt. absurd (omega arith)), λ j lt. refl)
  transfer-Live limit old new (suc n) s d f room l =
      let here : old s ≡ live (f 0) = ground (arith, l 0) in
      let (m', ran, lv, below) =
        transfer-Live limit (update old s raw) (update new d (old s)) n (s + 1) (d + 1)
          (λ i. f (i + 1)) (omega arith) (λ i lt. ground (arith, l (i + 1))) in
      (
        m',
        transfer_step limit old new n s d (f 0) here (omega arith) ∙ ran,
        (λ i lt. elim (Bool-cases (i == 0)) [
          | inl z ↦ let zero_i : i ≡ 0 = ground arith in ground (arith, below d)
          | inr z ↦ ground (arith, lv (i - 1))
        ]),
        λ j lt. ground (arith, below j (omega arith)),
      )

  pub memcpy-Live :
      (old : ℕ → Slot A) (s n : ℕ) (f : ℕ → A) → Live old s n f → Live (memcpy old s n) 0 n f
  unfolding memcpy
  memcpy-Live old s n f l i lt = ground (arith, l i lt)
