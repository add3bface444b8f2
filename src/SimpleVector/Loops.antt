-- ===== src/SimpleVector/Loops.antt =====
-- The loops of include/simple_vector.h, and what an array holds.
use turbokit.Base.{
  ◌⊎◌, ℕ, zero, suc, ◌+◌, ◌<◌, ◌≤◌, ◌≡◌, refl, sym, ap, ◌∙◌, Bool, true, false, Bool-cases, inl,
  inr, none, some, ◌==◌, ltb, if◌then◌else◌, if_true, if_false, update, update_self, update_other,
  arith,
}
use turbokit.Vector.Memory.{Slot, raw, live, Element, is_raw, memcpy}
use turbokit.Vector.Contents.{Live}
use turbokit.Vector.Relocate.{memcpy-Live}
use turbokit.SimpleVector.{
  Pointer, null, block, dangling, BasicArray, slots, limit, write_slots, can_deallocate,
  destroy_down, move_across, move_up, move_down, relocate_elements, construct,
}

module _ {A : Type 0} where
  abbrev pub is_dangling : Pointer A → Bool
  is_dangling null = false
  is_dangling (block m size) = false
  is_dangling dangling = true

  -- The array is the sequence of the first `n` values of `f`, in a memory that is there.
  pub record Holds (v : BasicArray A) (n : ℕ) (f : ℕ → A) : Type 0 where
    pub size : v.count ≡ n
    pub contents : Live (slots v.elements) 0 n f
    pub fits : n ≤ limit v.elements
    pub owned : is_dangling v.elements ≡ false

  pub destroy_down-ok :
      (m : ℕ → Slot A) (rounds i : ℕ)
      → ((j : ℕ) → i ≤ j → j < i + rounds → is_raw (m j) ≡ false)
      → (m' : ℕ → Slot A) × (destroy_down m rounds i ≡ some m') × ((j : ℕ) → j < i → m' j ≡ m j)
  unfolding destroy_down
  destroy_down-ok m zero i h = (m, refl, λ j l. refl)
  destroy_down-ok m (suc rounds) i h =
      let here = h (i + rounds) (omega arith) (omega arith) in
      let (m', ran, below) =
        destroy_down-ok (update m (i + rounds) raw) rounds i
          (λ j l u. rw (update_other m (i + rounds) raw j (omega arith)) (h j l (omega arith))) in
      (m', rw here ran, λ j l. below j l ∙ update_other m (i + rounds) raw j (omega arith))

  -- The construction stops at the first constructor that throws, with the elements before it.
  pub construct-stops :
      (fails : ℕ → Bool) (a : A) (m : ℕ → Slot A) (rounds i : ℕ)
      → let (m', stop) = construct fails a m rounds i in
        (i ≤ stop)
        × (stop ≤ i + rounds)
        × ((j : ℕ) → j < i → m' j ≡ m j)
        × ((j : ℕ) → i ≤ j → j < stop → m' j ≡ live a)
        × (((j : ℕ) → fails j ≡ false) → stop ≡ i + rounds)
  unfolding construct
  construct-stops fails a m zero i =
      (omega arith, omega arith, (λ j l. refl), (λ j l u. absurd (omega arith)), λ h. omega arith)
  construct-stops fails a m (suc rounds) i = elim (Bool-cases (fails i)) [
    | inl bad ↦ rw bad (
      omega arith,
      omega arith,
      (λ j l. refl),
      (λ j l u. absurd (omega arith)),
      λ h. absurd (ground (arith, h i, bad)),
    )
    | inr good ↦
        let (low, high, below, within, all) =
          construct-stops fails a (update m i (live a)) rounds (i + 1) in
        rw good (
          omega arith,
          omega arith,
          (λ j l. below j (omega arith) ∙ update_other m i (live a) j (omega arith)),
          (λ j l u. elim (Bool-cases (j == i)) [
            | inl s ↦
                let e : j ≡ i = ground arith in
                rw e (below i (omega arith) ∙ update_self m i (live a))
            | inr s ↦ within j (ground arith) u
          ]),
          λ h. omega (arith, all h),
        )
  ]

  abbrev pub resized : (n : ℕ) → (ℕ → A) → A → ℕ → A
  resized n f a i = if ltb i n then f i else a

  slots-write :
      (p : Pointer A) (m : ℕ → Slot A) (n : ℕ) (f : ℕ → A)
      → n ≤ limit p
      → Live m 0 n f
      → Live (slots (write_slots p m)) 0 n f
  slots-write null m n f h l i lt = absurd (omega (arith, h))
  slots-write (block _ size) m n f h l i lt = l i lt
  slots-write dangling m n f h l i lt = absurd (omega (arith, h))

  pub limit-write : (p : Pointer A) (m : ℕ → Slot A) → limit (write_slots p m) ≡ limit p
  limit-write null m = refl
  limit-write (block _ size) m = refl
  limit-write dangling m = refl

  is_dangling-write :
      (p : Pointer A) (m : ℕ → Slot A) → is_dangling (write_slots p m) ≡ is_dangling p
  is_dangling-write null m = refl
  is_dangling-write (block _ size) m = refl
  is_dangling-write dangling m = refl

  can_deallocate_lem :
      (p : Pointer A) (n : ℕ) → is_dangling p ≡ false → limit p ≡ n → can_deallocate p n ≡ true
  can_deallocate_lem null n h e = refl
  can_deallocate_lem (block _ size) n h e = ground arith
  can_deallocate_lem dangling n h e = sym h

  -- A memory of as many slots as there are elements may be given up.
  pub Holds-can_deallocate :
      (v : BasicArray A) (n : ℕ) (f : ℕ → A)
      → Holds v n f
      → limit v.elements ≡ n
      → can_deallocate v.elements v.count ≡ true
  Holds-can_deallocate v n f h e =
      can_deallocate_lem v.elements v.count h.owned (omega (arith, e, h.size))

  pub write-Holds :
      (v : BasicArray A) (m : ℕ → Slot A) (n k c : ℕ) (f g : ℕ → A)
      → Holds v n f
      → c ≡ k
      → k ≤ limit v.elements
      → Live m 0 k g
      → Holds (record { elements = write_slots v.elements m; count = c }) k g
  write-Holds v m n k c f g h e le l = record {
    size = e;
    contents = slots-write v.elements m k g le l;
    fits = omega (arith, limit-write v.elements m);
    owned = is_dangling-write v.elements m ∙ h.owned;
  }

  pub Holds-raw :
      (v : BasicArray A) (n : ℕ) (f : ℕ → A)
      → Holds v n f
      → (j : ℕ) → j < n
      → is_raw (slots v.elements j) ≡ false
  Holds-raw v n f h j lt =
      let z : 0 + j ≡ j = omega arith in
      ap (λ i. is_raw (slots v.elements i)) (sym z) ∙ ap is_raw (h.contents j lt)

  pub relocate-nothing :
      (e : Element) (before : Bool) (old : ℕ → Slot A)
      → (m : ℕ → Slot A) × (relocate_elements e before old (λ i. raw) 0 ≡ some m)
  unfolding relocate_elements move_up move_down
  relocate-nothing e before old = elim (Bool-cases e.trivial) [
    | inl t ↦ (memcpy old 0 0, if_true _ t)
    | inr t ↦ elim (Bool-cases before) [
      | inl b ↦ ((λ i. raw), if_false _ t ∙ if_true _ b)
      | inr b ↦ ((λ i. raw), if_false _ t ∙ if_false _ b)
    ]
  ]

  move_across-raw : (old : ℕ → Slot A) (i : ℕ) → move_across old (λ j. raw) i ≡ none
  unfolding move_across
  move_across-raw old i = elim (Bool-cases (is_raw (old i))) [
    | inl b ↦ rw b refl
    | inr b ↦ rw b refl
  ]

  pub relocate-raw :
      (before : Bool) (old : ℕ → Slot A) (n : ℕ)
      → 0 < n
      → (if before then move_up old (λ j. raw) n 0 else move_down old (λ j. raw) n) ≡ none
  unfolding move_up move_down
  relocate-raw before old zero pos = absurd (omega arith)
  relocate-raw true old (suc n) pos = rw (move_up, move_across-raw old 0) refl
  relocate-raw false old (suc n) pos = rw (move_down, move_across-raw old n) refl

  pub relocate-Live :
      (e : Element) (before : Bool) (v : BasicArray A) (n : ℕ) (f : ℕ → A)
      → ((e.trivial ≡ true) ⊎ (n ≡ 0))
      → Holds v n f
      → (m : ℕ → Slot A) × (relocate_elements e before (slots v.elements) (λ i. raw) v.count
          ≡ some m)
        × Live m 0 n f
  unfolding relocate_elements
  relocate-Live e before v n f (inl t) h = (
    memcpy (slots v.elements) 0 v.count,
    if_true _ t,
    (λ i lt.
        memcpy-Live (slots v.elements) 0 v.count f (λ j l. h.contents j (omega (arith, h.size))) i
          (omega (arith, h.size))),
  )
  relocate-Live e before v n f (inr z) h =
      let empty : v.count ≡ 0 = omega (arith, h.size) in
      let (m, ran) = relocate-nothing e before (slots v.elements) in
      (
        m,
        ap (relocate_elements e before (slots v.elements) (λ i. raw)) empty ∙ ran,
        λ i lt. absurd (omega arith),
      )
