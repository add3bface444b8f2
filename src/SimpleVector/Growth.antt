-- ===== src/SimpleVector/Growth.antt =====
-- `resize` and `clear` of include/simple_vector.h.
use turbokit.Base.{
  ◌⊎◌, ℕ, ◌+◌, ◌-◌, ◌<◌, ◌≤◌, ◌≡◌, refl, sym, ap, ◌∙◌, Bool, true, false, Bool-cases, inl, inr,
  ◌==◌, ltb, if◌then◌else◌, if_true, if_false, ltb-true, ltb-false, max, arith,
}
use turbokit.Vector.Memory.{raw, Element}
use turbokit.SimpleVector.{
  block, dangling, ok, threw, fault, or_fault, BasicArray, slots, limit, write_slots,
  can_deallocate, clear, relocate_elements, construct, grow, resize,
}
use turbokit.SimpleVector.Loops.{
  Holds, Holds-can_deallocate, limit-write, destroy_down-ok, construct-stops, resized, write-Holds,
  Holds-raw, relocate-nothing, relocate-raw, relocate-Live,
}

module _ {A : Type 0} (e : Element) (before : Bool) (fails : ℕ → Bool) (a : A) where
  grow-Holds :
      (v : BasicArray A) (n : ℕ) (f : ℕ → A) (k : ℕ)
      → ((e.trivial ≡ true) ⊎ (n ≡ 0))
      → limit v.elements ≡ n
      → Holds v n f
      → n < k
      → (w : BasicArray A) × (j : ℕ) × (grow e before fails a k v
          ≡ (if j == k then ok w else threw w))
        × (n ≤ j)
        × (j ≤ k)
        × (((i : ℕ) → fails i ≡ false) → j ≡ k)
        × (limit w.elements ≡ max k (limit v.elements))
        × Holds w j (resized n f a)
  unfolding grow
  grow-Holds v n f k t exact h lt =
      let (m, moved_, l) = relocate-Live e before v n f t h in
      let (low, high, below, within, all) = construct-stops fails a m (k - v.count) v.count in
      let (m', stop) = construct fails a m (k - v.count) v.count in
      (
        record { elements = block m' k; count = stop },
        stop,
        rw (moved_, Holds-can_deallocate v n f h exact) refl,
        omega (arith, low, h.size),
        omega (arith, high, h.size),
        (λ none_fails. omega (arith, all none_fails, h.size)),
        omega (arith, exact),
        record {
          size = refl;
          contents = λ i li.
              let z : 0 + i ≡ i = omega arith in
              elim (Bool-cases (ltb i n)) [
                | inl old ↦
                    rw old (
                      ap m' z
                      ∙ below i (ground (arith, h.size))
                      ∙ sym (ap m z)
                      ∙ l i (ground arith))
                | inr added ↦ rw added (ap m' z ∙ within i (ground (arith, h.size)) li)
              ];
          fits = omega (arith, high, h.size);
          owned = refl;
        },
      )

  -- For trivially copyable elements, and for any where the array is empty, and where the array does
  -- not grow or its memory has as many slots as it has elements, so that it was neither cleared nor
  -- made smaller before, `resize` to `k` elements keeps the first `k` of them, or all and adds new
  -- ones behind them; where a constructor throws, the exception passes on and the array has the
  -- elements up to that one. Its memory grows to `k` slots and never shrinks. No other access is
  -- made than to objects that are there.
  pub resize-Holds :
      (v : BasicArray A) (n : ℕ) (f : ℕ → A) (k : ℕ)
      → ((e.trivial ≡ true) ⊎ (n ≡ 0))
      → ((k ≤ n) ⊎ (limit v.elements ≡ n))
      → Holds v n f
      → (w : BasicArray A) × (j : ℕ) × (resize e before fails a k v
          ≡ (if j == k then ok w else threw w))
        × (j ≤ k)
        × ((k ≤ n) ⊎ (n ≤ j))
        × (((i : ℕ) → fails i ≡ false) → j ≡ k)
        × (limit w.elements ≡ max k (limit v.elements))
        × Holds w j (resized n f a)
  unfolding resize
  resize-Holds v n f k t exact h = elim (Bool-cases (ltb k v.count)) [
    | inl less ↦
        let kept_count : k < v.count = ground arith in
        let (m, ran, below) =
          destroy_down-ok (slots v.elements) (v.count - k) k
            (λ j l u. Holds-raw v n f h j (ground (arith, h.size))) in
        (
          record { elements = write_slots v.elements m; count = k },
          k,
          rw (less, ran) (sym (if_true {b = k == k} _ (ground arith))),
          omega arith,
          inl (ground (arith, h.size)),
          (λ none_fails. refl),
          omega (arith, limit-write v.elements m, h.fits, h.size, kept_count),
          write-Holds v m n k k f (resized n f a) h refl (ground (arith, h.size, h.fits)) (λ i lt.
              let z : 0 + i ≡ i = omega arith in
              rw (ltb-true i n (ground (arith, h.size))) (
                ap m z
                ∙ below i lt
                ∙ sym (ap (slots v.elements) z)
                ∙ h.contents i (ground (arith, h.size)))),
        )
    | inr keep ↦ elim (Bool-cases (ltb v.count k)) [
      | inl more ↦
          let larger : n < k = ground (arith, h.size) in
          let full : limit v.elements ≡ n = elim exact [
            | inl le ↦ absurd (omega arith)
            | inr e' ↦ e'
          ] in
          let (w, j, ran, low, high, all, size, x) = grow-Holds v n f k t full h larger in
          (w, j, rw (keep, more) ran, high, inr low, all, size, x)
      | inr same ↦ (
        v,
        n,
        rw (keep, same) (sym (if_true {b = n == k} _ (ground (arith, h.size, keep, same)))),
        ground (arith, h.size),
        inr (omega arith),
        (λ none_fails. ground (arith, h.size)),
        ground (arith, h.size, h.fits, keep, same),
        record {
          size = h.size;
          contents = λ i lt. rw (ltb-true i n lt) (h.contents i lt);
          fits = h.fits;
          owned = h.owned;
        },
      )
    ]
  ]

  -- Where elements are not trivially copyable, an array that has some cannot grow: they are assigned to
  -- memory that holds no object.
  pub resize-raw :
      (v : BasicArray A) (n : ℕ) (f : ℕ → A) (k : ℕ)
      → e.trivial ≡ false
      → Holds v n f
      → 0 < n
      → n < k
      → resize e before fails a k v ≡ fault
  unfolding resize grow relocate_elements
  resize-raw v n f k t h some_ more =
      if_false _ (ltb-false k v.count (omega (arith, h.size)))
      ∙ if_true _ (ltb-true v.count k (omega (arith, h.size)))
      ∙ ap
          (λ o. or_fault o λ m.
            if can_deallocate v.elements v.count
            then (let (m', stop) = construct fails a m (k - v.count) v.count in
                let w : BasicArray A = record { elements = block m' k; count = stop } in
                if stop == k then ok w else threw w)
            else fault)
          (if_false _ t ∙ relocate-raw before (slots v.elements) v.count (omega (arith, h.size)))

module _ {A : Type 0} where
  -- `clear` destroys every element and gives the memory up, but an array that had elements keeps the
  -- pointer: a `resize` to one or more then gives the same memory up again.
  pub resize-clear :
      (e : Element) (before : Bool) (fails : ℕ → Bool) (a : A) (v : BasicArray A) (n : ℕ)
      (f : ℕ → A) (k : ℕ)
      → Holds v n f
      → limit v.elements ≡ n
      → 0 < n
      → 0 < k
      → (w : BasicArray A) × (clear v ≡ ok w)
        × (w.count ≡ 0)
        × (resize e before fails a k w ≡ fault)
  unfolding clear resize grow
  resize-clear e before fails a v n f k h exact some_ more =
      let (m, ran, below) =
        destroy_down-ok (slots v.elements) v.count 0
          (λ j l u. Holds-raw v n f h j (omega (arith, h.size))) in
      let (m0, moved_) = relocate-nothing {A = A} e before (λ i. raw) in
      (
        record { elements = dangling; count = 0 },
        if_false {b = v.count == 0} _ (ground (arith, h.size))
            ∙ rw (ran, Holds-can_deallocate v n f h exact) refl,
        refl,
        if_false _ (ltb-false k 0 (omega arith)) ∙ if_true _ (ltb-true 0 k more) ∙ rw moved_ refl,
      )
