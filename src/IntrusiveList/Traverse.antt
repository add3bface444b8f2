-- ===== src/IntrusiveList/Traverse.antt =====
-- The iterators of include/intrusive_list.h.
use turbokit.Base.{◌≡◌, suc, false, ◌==◌, some, List, [], ◌∷◌, ◌++◌, arith, length, ◌+◌}
use native.Mathlib.Numerals.{add-one}
use turbokit.IntrusiveList.{begin, increment, decrement, forward, traverse, insert, erase}
use turbokit.IntrusiveList.Insert.{insert-IsRing}
use turbokit.IntrusiveList.Erase.{erase-IsRing}
use turbokit.IntrusiveList.Heap.{Ptr, null, Heap, ◌>>◌, get_next-ok, get_previous-ok}
use turbokit.IntrusiveList.Ring.{
  NotIn, Linked, IsRing, last, first, successor-first, previous-first, gap-NotIn,
}

forward-Linked :
    (h : Heap) (s a : Ptr) (xs : List Ptr)
    → Linked h a xs s
    → NotIn s xs
    → NotIn null xs
    → forward (suc (length xs)) s (first xs s) h ≡ some (xs, h)
unfolding forward
forward-Linked h s a [] k hs hn = ground arith
forward-Linked h s a (x ∷ xs) k hs hn =
    let more : (x == s) ≡ false = ground arith in
    rw (more, get_next-ok hn.0, successor-first h x xs s k.2, forward-Linked h s x xs k.2 hs.1 hn.1)

-- The loop from `begin()` to `end()` meets the elements in order, each once, and stops; one round
-- more than there are elements is enough.
pub traverse-IsRing :
    (h : Heap) (s : Ptr) (xs : List Ptr)
    → IsRing h s xs
    → traverse (length xs + 1) s h ≡ some (xs, h)
unfolding traverse begin
traverse-IsRing h s xs r =
    rw (get_next-ok r.allocated.0, successor-first h s xs s r.linked, add-one)
      (forward-Linked h s s xs r.linked r.distinct.0 r.allocated.1)

-- An element that is allocated and not in the list is inserted behind `xs`; a loop from `begin()` to
-- `end()` then meets it there, and all others in their order; and when it is erased again, by its
-- address alone, such a loop meets what the list had before. A loop takes at most one round more than
-- there are elements.
pub insert-traverse :
    (h : Heap) (s e : Ptr) (xs ys : List Ptr)
    → IsRing h s (xs ++ ys)
    → NotIn e (null ∷ s ∷ xs ++ ys)
    → (h1 h2 : Heap) × ((insert (first ys s) e >> traverse (length (xs ++ e ∷ ys) + 1) s) h
        ≡ some (xs ++ e ∷ ys, h1))
      × ((erase e >> traverse (length (xs ++ ys) + 1) s) h1 ≡ some (xs ++ ys, h2))
insert-traverse h s e xs ys r out =
    let (h1, put, ring, same) = insert-IsRing h s e xs ys r out in
    let (h2, taken, ring', nulls, rest) = erase-IsRing h1 s e xs ys ring in
    (
      h1,
      h2,
      rw put (traverse-IsRing h1 s (xs ++ e ∷ ys) ring),
      rw taken (traverse-IsRing h2 s (xs ++ ys) ring'),
    )

successor-last :
    (h : Heap) (a : Ptr) (xs ys : List Ptr) (b : Ptr)
    → Linked h a (xs ++ ys) b
    → h.successor (last a xs) ≡ first ys b
successor-last h a [] ys b k = successor-first h a ys b k
successor-last h a (x ∷ xs) ys b k = successor-last h x xs ys b k.2

-- From the iterator behind `xs`, `--` leads to the last of `xs`, or to the sentinel, and `++`
-- leads back.
pub decrement-increment :
    (h : Heap) (s : Ptr) (xs ys : List Ptr)
    → IsRing h s (xs ++ ys)
    → (decrement (first ys s) h ≡ some (last s xs, h))
      × (increment (last s xs) h ≡ some (first ys s, h))
unfolding increment decrement
decrement-increment h s xs ys r =
    let live = gap-NotIn null s xs ys r.allocated in
    (
      rw (get_previous-ok live.1, previous-first h s xs ys s r.linked),
      rw (get_next-ok live.0, successor-last h s xs ys s r.linked),
    )
