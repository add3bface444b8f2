-- ===== src/Vector/Access.antt =====
-- Reading elements of a `DynamicArray`, taking the last one out, and copying it (include/vector.h).
use turbokit.Base.{
  ℕ, zero, suc, ◌+◌, ◌-◌, ◌≤◌, ◌≡◌, refl, true, false, ◌==◌, ltb, leb, arith, if◌then◌else◌,
  Bool-cases, inl, inr, ◌∙◌, ap,
}
use turbokit.Vector.Memory.{Element}
use turbokit.Vector.Array.{
  ok, out_of_range, value_at, DynamicArray, get_at, get_first, get_last, remove_last, copy_elements,
  copy_assign,
}
use turbokit.Vector.Contents.{Holds, construct-Constructed, destroy-Destroyed}
use turbokit.Vector.Append.{reserve-Holds}
use turbokit.Vector.Drop.{clear-Holds}

module _ {A : Type 0} where
  -- `get_at` and the subscript give the element at the index, and throw exactly where there is none;
  -- so do `get_first` and `get_last`.
  pub get-Holds :
      (v : DynamicArray A) (n : ℕ) (f : ℕ → A) (i : ℕ)
      → Holds v n f
      → (get_at v i ≡ (if ltb i n then ok (f i) else out_of_range))
        × (get_first v ≡ (if n == 0 then out_of_range else ok (f 0)))
        × (get_last v ≡ (if n == 0 then out_of_range else ok (f (n - 1))))
  unfolding get_at get_first get_last
  get-Holds v n f i h = (
    elim (Bool-cases (ltb i n)) [
      | inl there ↦
          let past : leb v.element_count i ≡ false = ground (arith, h.count) in
          rw (there, past, h.contents i (ground arith)) refl
      | inr out ↦
          let past : leb v.element_count i ≡ true = ground (arith, h.count) in rw (out, past) refl
    ],
    elim (Bool-cases (n == 0)) [
      | inl none_there ↦
          let no_one : (v.element_count == 0) ≡ true = ground (arith, h.count) in
          rw (none_there, no_one) refl
      | inr some_there ↦
          let one : (v.element_count == 0) ≡ false = ground (arith, h.count) in
          let at : v.current_start ≡ v.current_start + 0 = omega arith in
          rw (some_there, one) (ap value_at (ap v.memory at ∙ h.contents 0 (ground arith)))
    ],
    elim (Bool-cases (n == 0)) [
      | inl none_there ↦
          let no_one : (v.element_count == 0) ≡ true = ground (arith, h.count) in
          rw (none_there, no_one) refl
      | inr some_there ↦
          let one : (v.element_count == 0) ≡ false = ground (arith, h.count) in
          let at : v.current_end - 1 ≡ v.current_start + (n - 1) = ground (arith, h.finish) in
          rw (some_there, one) (ap value_at (ap v.memory at ∙ h.contents (n - 1) (ground arith)))
    ],
  )

module _ {A : Type 0} (e : Element) where
  -- `remove_last` takes the last element out and keeps the others.
  pub remove_last-Holds :
      (v : DynamicArray A) (n : ℕ) (f : ℕ → A)
      → Holds v (n + 1) f
      → (w : DynamicArray A) × (remove_last e v ≡ ok w) × Holds w n f
  unfolding remove_last
  remove_last-Holds v n f h =
      let one : (v.element_count == 0) ≡ false = ground (arith, h.count) in
      let (m, ran, d) =
        destroy-Destroyed v.memory 1 (v.current_end - 1)
          (λ j l u. ground (arith, h.contents n, h.finish)) in
      (
        record v {
          memory = m;
          current_end = v.current_end - 1;
          element_count = v.element_count - 1;
        },
        rw (one, ran) refl,
        record {
          count = omega (arith, h.count);
          finish = omega (arith, h.finish);
          fits = omega (arith, h.fits);
          contents = λ i lt.
              d.below (v.current_start + i) (omega (arith, h.finish)) ∙ h.contents i (omega arith);
          unallocated = h.unallocated;
        },
      )

  copy_elements-Holds :
      (other v : DynamicArray A) (n : ℕ) (f : ℕ → A) (rounds i : ℕ)
      → Holds other n f
      → i + rounds ≡ n
      → Holds v i f
      → v.current_start + n ≤ v.memory_limit
      → (w : DynamicArray A) × (copy_elements e other rounds i v ≡ ok w) × Holds w n f
  unfolding copy_elements
  copy_elements-Holds other v n f zero i o all h room =
      let same : i ≡ n = omega arith in (v, refl, rw same at h)
  copy_elements-Holds other v n f (suc rounds) i o all h room =
      let (m, built, c) =
        construct-Constructed v.memory_limit (f i) v.memory 1 v.current_end
          (omega (arith, h.finish)) in
      let there : ltb i n ≡ true = ground arith in
      let read : get_at other i ≡ ok (f i) = rw there at (get-Holds other n f i o).0 in
      let next = record v {
        memory = m;
        current_end = v.current_end + 1;
        element_count = v.element_count + 1;
      } in
      let (w, ran, x) =
        copy_elements-Holds other next n f rounds (i + 1) o (omega arith)
          (record {
            count = omega (arith, h.count);
            finish = omega (arith, h.finish);
            fits = omega (arith, h.finish);
            contents = λ j lt. elim (Bool-cases (j == i)) [
              | inl s ↦
                  let same : j ≡ i = ground arith in
                  let here : v.current_start + i ≡ v.current_end = omega (arith, h.finish) in
                  rw (same, here) (c.within v.current_end (omega arith) (omega arith))
              | inr s ↦
                  c.below (v.current_start + j) (ground (arith, h.finish))
                  ∙ h.contents j (ground arith)
            ];
            unallocated = h.unallocated;
          })
          room in
      (w, rw (read, built) ran, x)

  -- The copy assignment makes the array hold what the other one holds, whatever it held before.
  pub copy_assign-Holds :
      (other v : DynamicArray A) (n k : ℕ) (f g : ℕ → A)
      → Holds other n f
      → Holds v k g
      → (w : DynamicArray A) × (copy_assign e other v ≡ ok w) × Holds w n f
  unfolding copy_assign
  copy_assign-Holds other v n k f g o h =
      let (w, cleared, x, kept) = clear-Holds v k g f h in
      let (y, reserved, z, room) = reserve-Holds e w 0 f other.element_count x in
      let (r, ran, last) =
        copy_elements-Holds other y n f other.element_count 0 o (omega (arith, o.count)) z
          (omega (arith, o.count, z.finish, z.fits)) in
      (r, rw (cleared, reserved) ran, last)
