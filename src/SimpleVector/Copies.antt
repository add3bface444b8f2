-- ===== src/SimpleVector/Copies.antt =====
-- Reading and copying the elements of include/simple_vector.h.
use turbokit.Base.{
  ℕ, zero, suc, ◌+◌, ◌<◌, ◌≤◌, ◌≡◌, ◌⊎◌, refl, sym, ap, ◌∙◌, Bool, true, false, Bool-cases, inl,
  inr, ◌==◌, ltb, leb, if◌then◌else◌, if_true, if_false, ltb-true, update, update_self,
  update_other, arith,
}
use mathlib.Core.Path.{subst}
use turbokit.Vector.Memory.{Slot, live, Element, is_raw}
use turbokit.Vector.Contents.{Live}
use turbokit.SimpleVector.{
  ok, out_of_range, ◌>>=◌, BasicArray, slots, limit, write_slots, value_at, get_at, copy_down,
  copy_assign,
}
use turbokit.SimpleVector.Loops.{Holds, write-Holds}
use turbokit.SimpleVector.Growth.{resize-Holds}

module _ {A : Type 0} where
  -- `get_at` gives the element at the position, and throws exactly where there is none.
  pub get_at-Holds :
      (v : BasicArray A) (n : ℕ) (f : ℕ → A) (i : ℕ)
      → Holds v n f
      → get_at v i ≡ (if ltb i n then ok (f i) else out_of_range)
  unfolding get_at
  get_at-Holds v n f i h = elim (Bool-cases (ltb i n)) [
    | inl there ↦
        let z : 0 + i ≡ i = omega arith in
        rw there (
          if_false {b = leb v.count i} _ (ground (arith, h.size))
          ∙ ap value_at (ap (slots v.elements) (sym z) ∙ h.contents i (ground arith)))
    | inr out ↦ rw out (if_true {b = leb v.count i} _ (ground (arith, h.size)))
  ]

  -- The values below `i` are still the old ones.
  abbrev below_or : ℕ → (ℕ → A) → (ℕ → A) → ℕ → A
  below_or i old new j = if ltb j i then old j else new j

  copied :
      (m : ℕ → Slot A) (n i : ℕ) (f g : ℕ → A)
      → i < n
      → Live m 0 n (below_or (suc i) g f)
      → Live (update m i (live (f i))) 0 n (below_or i g f)
  copied m n i f g lt l j lj =
      let z : 0 + j ≡ j = omega arith in
      ap (update m i (live (f i))) z ∙ elim (Bool-cases (j == i)) [
        | inl s ↦
            let e : j ≡ i = ground arith in
            rw e (
              update_self m i (live (f i))
              ∙ sym (ap live (if_false {b = ltb i i} _ (ground arith))))
        | inr s ↦
            update_other m i (live (f i)) j (ground arith) ∙ ap m (sym z) ∙ l j lj ∙ ground arith
      ]

  copy_down-Holds :
      (other v : BasicArray A) (n : ℕ) (f g : ℕ → A) (i : ℕ)
      → Holds other n f
      → i ≤ n
      → Holds v n (below_or i g f)
      → (w : BasicArray A) × (copy_down other i v ≡ ok w) × Holds w n f
  unfolding copy_down
  copy_down-Holds other v n f g zero o le h = (
    v,
    refl,
    record {
      size = h.size;
      contents = λ j lt. ground (arith, h.contents j lt);
      fits = h.fits;
      owned = h.owned;
    },
  )
  copy_down-Holds other v n f g (suc i) o le h =
      let z : 0 + i ≡ i = omega arith in
      let here : slots other.elements i ≡ live (f i) =
        ap (slots other.elements) (sym z) ∙ o.contents i (omega arith) in
      let there : is_raw (slots v.elements i) ≡ false =
        ap is_raw (ap (slots v.elements) (sym z) ∙ h.contents i (omega arith)) in
      let m = update (slots v.elements) i (live (f i)) in
      let (w, ran, x) =
        copy_down-Holds other (record v { elements = write_slots v.elements m }) n f g i o
          (omega arith)
          (write-Holds v m n n v.count (below_or (suc i) g f) (below_or i g f) h h.size h.fits
            (λ j lt. copied (slots v.elements) n i f g (omega arith) h.contents j lt)) in
      (w, rw (copy_down, here, there) ran, x)

module _ {A : Type 0} (e : Element) (before : Bool) (fails : ℕ → Bool) (a : A) where
  -- The copy assignment of trivially copyable elements, or to an empty array, and to one that does not
  -- grow or whose memory has as many slots as it has elements, makes the array hold
  -- what the other one holds, where no constructor of an element throws.
  pub copy_assign-Holds :
      (other v : BasicArray A) (n k : ℕ) (f g : ℕ → A)
      → ((e.trivial ≡ true) ⊎ (k ≡ 0))
      → ((n ≤ k) ⊎ (limit v.elements ≡ k))
      → ((i : ℕ) → fails i ≡ false)
      → Holds other n f
      → Holds v k g
      → (w : BasicArray A) × (copy_assign e before fails a other v ≡ ok w) × Holds w n f
  unfolding copy_assign
  copy_assign-Holds other v n k f g t exact safe o h =
      let room : (other.count ≤ k) ⊎ (limit v.elements ≡ k) =
        subst (λ c. (c ≤ k) ⊎ (limit v.elements ≡ k)) (sym o.size) exact in
      let (w, j, ran, low, kept, all, size, x) =
        resize-Holds e before fails a v k g other.count t room h in
      let full : j ≡ n = omega (arith, all safe, o.size) in
      let old : ℕ → A = λ i. if ltb i k then g i else a in
      let (r, copied_, y) =
        copy_down-Holds other w n f old w.count o (omega (arith, x.size)) (record {
          size = omega (arith, x.size);
          contents = λ i lt.
              x.contents i (omega arith)
              ∙ sym (ap live (if_true _ (ltb-true i w.count (omega (arith, x.size)))));
          fits = omega (arith, x.fits);
          owned = x.owned;
        }) in
      (
        r,
        ap (λ s. s >>= λ u. copy_down other u.count u)
              (ran ∙ if_true {b = j == other.count} _ (ground (arith, all safe)))
            ∙ copied_,
        y,
      )
