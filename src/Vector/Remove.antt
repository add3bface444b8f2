-- ===== src/Vector/Remove.antt =====
-- The operations of include/vector.h that take elements out.
use turbokit.Base.{
  ℕ, zero, suc, ◌+◌, ◌-◌, ◌<◌, ◌≤◌, ◌≡◌, refl, true, false, some, ◌==◌, leb, arith, ◌∙◌, fun_ext,
}
use turbokit.Vector.Memory.{Slot, Element, destroy}
use turbokit.Vector.Array.{
  ok, DynamicArray, drop_front, rewind_empty, remove_range, remove_at, remove_first,
}
use turbokit.Vector.Contents.{Holds, destroy-Destroyed}
use turbokit.Vector.Drop.{cut, rewind_empty-Holds, drop_front-Holds, drop_inside-Holds}

module _ {A : Type 0} (e : Element) where
  front-eq : (v : DynamicArray A) → v.current_start + 0 ≡ v.current_start
  front-eq v = omega arith

  front_then :
      (v w : DynamicArray A) (m : ℕ → Slot A) (b : ℕ)
      → destroy v.memory b v.current_start ≡ some m
      → drop_front e b (v.current_start + b) (record v { memory = m }) ≡ ok w
      → remove_range e v.current_start (v.current_start + b) v ≡ ok (rewind_empty w)
  unfolding remove_range
  front_then v w m b ran dropped =
      let own : (v.current_start == v.current_start) ≡ true = ground arith in
      let size : v.current_start + b - v.current_start ≡ b = omega arith in
      rw (own, size, ran, dropped) refl

  cut_front : (b : ℕ) (f : ℕ → A) → (λ i. f (i + b)) ≡ cut 0 b f
  cut_front b f = fun_ext (λ i. let z : b - 0 ≡ b = omega arith in rw z (ground arith))

  remove_front-Holds :
      (v : DynamicArray A) (n b : ℕ) (f : ℕ → A)
      → b ≤ n
      → Holds v n f
      → (w : DynamicArray A) × (remove_range e v.current_start (v.current_start + b) v ≡ ok w)
        × Holds w (n - b) (λ i. f (i + b))
  remove_front-Holds v n b f hb h =
      let (m, ran, d) =
        destroy-Destroyed v.memory b v.current_start
          (λ j l u. ground (arith, h.contents (j - v.current_start))) in
      let (w, dropped, x) =
        drop_front-Holds e (record v { memory = m }) (n - b) b (λ i. f (i + b))
          (omega (arith, h.count)) (omega (arith, h.finish)) h.fits
          (λ i lt.
            let at : v.current_start + b + i ≡ v.current_start + (i + b) = omega arith in
            d.above (v.current_start + b + i) (omega arith)
            ∙ rw at (h.contents (i + b) (omega arith)))
          h.unallocated in
      (
        rewind_empty w,
        front_then v w m b ran dropped,
        rewind_empty-Holds w (n - b) (λ i. f (i + b)) x,
      )

  -- `remove_range` takes out the elements from `a` on and before `b`, of which there is one at least,
  -- and keeps the others in order; this holds at the start of the array, where the memory may be
  -- compacted, and inside it.
  pub remove_range-Holds :
      (v : DynamicArray A) (n a b : ℕ) (f : ℕ → A)
      → a < b
      → b ≤ n
      → Holds v n f
      → (w : DynamicArray A) × (remove_range e (v.current_start + a) (v.current_start + b) v ≡ ok w)
        × Holds w (n - (b - a)) (cut a b f)
  unfolding remove_range
  remove_range-Holds v zero a b f less hb h = absurd (omega arith)
  remove_range-Holds v (suc n) zero b f less hb h =
      let (w, ran, x) = remove_front-Holds v (suc n) b f hb h in
      let all : b - 0 ≡ b = omega arith in (w, rw (front-eq v) ran, rw (← cut_front b f, all) x)
  remove_range-Holds v (suc n) (suc a) b f less hb h =
      let other : (v.current_start + suc a == v.current_start) ≡ false = ground arith in
      let (w, ran, x) = drop_inside-Holds e v (suc n) (suc a) b f less hb h in
      (
        rewind_empty w,
        rw (other, ran) refl,
        rewind_empty-Holds w (suc n - (b - suc a)) (cut (suc a) b f) x,
      )

  -- `remove_at` of an index where there is an element takes it out, keeps the others in order, and
  -- returns the index.
  pub remove_at-Holds :
      (v : DynamicArray A) (n i : ℕ) (f : ℕ → A)
      → Holds v n f
      → i < n
      → (w : DynamicArray A) × (remove_at e i v ≡ ok (w, i)) × Holds w (n - 1) (cut i (i + 1) f)
  unfolding remove_at
  remove_at-Holds v n i f h lt =
      let there : leb v.element_count i ≡ false = ground (arith, h.count) in
      let (w, ran, x) = remove_range-Holds v n i (i + 1) f (omega arith) (omega arith) h in
      let one : n - (i + 1 - i) ≡ n - 1 = omega arith in
      let at : v.current_start + i + 1 ≡ v.current_start + (i + 1) = omega arith in
      (w, rw (there, at, ran) refl, rw one at x)

  -- `remove_first` takes out the first element and keeps the others in order.
  pub remove_first-Holds :
      (v : DynamicArray A) (n : ℕ) (f : ℕ → A)
      → Holds v (n + 1) f
      → (w : DynamicArray A) × (remove_first e v ≡ ok w) × Holds w n (λ i. f (i + 1))
  unfolding remove_first
  remove_first-Holds v n f h =
      let one : (v.element_count == 0) ≡ false = ground (arith, h.count) in
      let (w, ran, x) = remove_front-Holds v (n + 1) 1 f (omega arith) h in
      let left : n + 1 - 1 ≡ n = omega arith in (w, rw (one, ran) refl, rw left at x)
