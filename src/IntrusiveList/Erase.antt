-- ===== src/IntrusiveList/Erase.antt =====
-- `erase`, `pop_front` and `pop_back` of include/intrusive_list.h.
use turbokit.Base.{◌≡◌, ◌≢◌, some, List, [], ◌∷◌, ◌++◌, append-nil, arith}
use turbokit.IntrusiveList.{erase, pop_front, pop_back}
use turbokit.IntrusiveList.Heap.{
  Ptr, null, Heap, update, get_next-ok, get_previous-ok, set_next-ok, set_previous-ok,
}
use turbokit.IntrusiveList.Ring.{
  NotIn, Distinct, Linked, IsRing, SameOutside, last, first, last-NotIn, first-NotIn,
  previous-first, successor-first, gap-NotIn, NotIn-split, NotIn-delete, Distinct-delete,
  Linked-split,
}

-- The heap after `p` has been unlinked from between `l` and `n`.
abbrev pub unlinked : Heap → (l p n : Ptr) → Heap
unlinked h l p n = record {
  previous = update (update h.previous n l) p null;
  successor = update (update h.successor l n) p null;
}

unlinked-Linked :
    (h : Heap) (l p n a : Ptr) (xs : List Ptr) (b : Ptr)
    → Linked h a xs b
    → NotIn l (a ∷ xs)
    → NotIn p (a ∷ xs)
    → NotIn n xs
    → b ≢ n
    → b ≢ p
    → Linked (unlinked h l p n) a xs b
unlinked-Linked h l p n a [] b k hl hp hn bn bp = ground arith
unlinked-Linked h l p n a (x ∷ xs) b k hl hp hn bn bp =
    (ground arith, ground arith, unlinked-Linked h l p n x xs b k.2 hl.1 hp.1 hn.1 bn bp)

-- What stood on both sides of the element is joined.
Linked-unlinked :
    (h : Heap) (p a : Ptr) (xs ys : List Ptr) (b : Ptr)
    → Linked h a (xs ++ p ∷ ys) b
    → Distinct (a ∷ xs ++ p ∷ ys)
    → NotIn b (xs ++ p ∷ ys)
    → Linked (unlinked h (last a xs) p (first ys b)) a (xs ++ ys) b
Linked-unlinked h p a [] [] b k d hb = (ground arith, ground arith)
Linked-unlinked h p a [] (y ∷ ys) b k d hb = (
  ground arith,
  ground arith,
  unlinked-Linked h a p y y ys b k.2.2 d.0.1 d.1.0 d.1.1.0 (ground arith) (ground arith),
)
Linked-unlinked h p a (x ∷ xs) ys b k d hb =
    let out = NotIn-split x xs (p ∷ ys) d.1.0 in
    (
      ground (
        arith,
        last-NotIn a x xs (d.0.0, (NotIn-split a xs (p ∷ ys) d.0.1).0),
        NotIn-split a xs (p ∷ ys) d.0.1,
      ),
      ground (arith, first-NotIn x b ys (ground arith, out.1.1)),
      Linked-unlinked h p x xs ys b k.2 d.1 hb.1,
    )

erase-unlinked :
    (h : Heap) (p : Ptr)
    → p ≢ null
    → h.previous p ≢ null
    → h.successor p ≢ null
    → erase p h ≡ some (h.successor p, unlinked h (h.previous p) p (h.successor p))
unfolding erase
erase-unlinked h p np nl nn = rw (
  get_next-ok np,
  get_previous-ok np,
  set_previous-ok nn,
  set_next-ok nl,
  set_previous-ok np,
  set_next-ok np,
)

-- `erase` takes the element out, keeps the order of the others, resets its links to the null
-- pointer, touches no link outside the ring, and returns the iterator behind it.
pub erase-IsRing :
    (h : Heap) (s p : Ptr) (xs ys : List Ptr)
    → IsRing h s (xs ++ p ∷ ys)
    → (h' : Heap) × (erase p h ≡ some (first ys s, h'))
      × IsRing h' s (xs ++ ys)
      × ((h'.previous p ≡ null) × (h'.successor p ≡ null))
      × SameOutside (s ∷ xs ++ p ∷ ys) h h'
erase-IsRing h s p xs ys r =
    let k = Linked-split h s xs p ys s r.linked in
    let e_next = successor-first h p ys s k.1 in
    let e_prev = previous-first h s xs (p ∷ ys) s r.linked in
    let np = NotIn-split null xs (p ∷ ys) r.allocated.1 in
    let live = gap-NotIn null s xs ys (r.allocated.0, NotIn-delete null p xs ys r.allocated.1) in
    (
      unlinked h (last s xs) p (first ys s),
      rw (← e_prev, ← e_next) (erase-unlinked h p np.1.0 (rw e_prev live.0) (rw e_next live.1)),
      record {
        allocated = (r.allocated.0, NotIn-delete null p xs ys r.allocated.1);
        distinct = (NotIn-delete s p xs ys r.distinct.0, Distinct-delete p xs ys r.distinct.1);
        linked = Linked-unlinked h p s xs ys s r.linked r.distinct r.distinct.0;
      },
      (ground arith, ground arith),
      λ q o. ground (
        arith,
        gap-NotIn q s xs ys (o.0, NotIn-delete q p xs ys o.1),
        NotIn-split q xs (p ∷ ys) o.1,
      ),
    )

-- `pop_front` takes out the first element, keeps the order of the others, and touches no link outside
-- the ring.
pub pop_front-IsRing :
    (h : Heap) (s p : Ptr) (xs : List Ptr)
    → IsRing h s (p ∷ xs)
    → (h' : Heap) × (pop_front s h ≡ some (tt, h')) × IsRing h' s xs × SameOutside (s ∷ p ∷ xs) h h'
unfolding pop_front
pop_front-IsRing h s p xs r =
    let out = erase-IsRing h s p [] xs r in
    (out.0, rw (get_next-ok r.allocated.0, r.linked.0, out.1), out.2, out.4)

-- `pop_back` takes out the last element, keeps the order of the others, and touches no link outside
-- the ring.
pub pop_back-IsRing :
    (h : Heap) (s p : Ptr) (xs : List Ptr)
    → IsRing h s (xs ++ p ∷ [])
    → (h' : Heap) × (pop_back s h ≡ some (tt, h'))
      × IsRing h' s xs
      × SameOutside (s ∷ xs ++ p ∷ []) h h'
unfolding pop_back
pop_back-IsRing h s p xs r =
    let out = erase-IsRing h s p xs [] r in
    let back = (Linked-split h s xs p [] s r.linked).1.1 in
    (out.0, rw (get_previous-ok r.allocated.0, back, out.1), rw append-nil at out.2, out.4)
