-- ===== src/IntrusiveList/Insert.antt =====
-- `insert`, `push_front` and `push_back` of include/intrusive_list.h.
use turbokit.Base.{◌≡◌, ◌≢◌, some, List, [], ◌∷◌, ◌++◌, append-nil, arith}
use turbokit.IntrusiveList.{insert, push_front, push_back}
use turbokit.IntrusiveList.Heap.{
  Ptr, null, Heap, update, get_next-ok, get_previous-ok, set_next-ok, set_previous-ok,
}
use turbokit.IntrusiveList.Ring.{
  NotIn, Distinct, Linked, IsRing, last, first, last-NotIn, first-NotIn, previous-first,
  successor-first, gap-NotIn, SameOutside, NotIn-split, NotIn-insert, Distinct-insert,
}

-- The heap after `e` has been linked between `l` and `n`.
abbrev pub spliced : Heap → (l e n : Ptr) → Heap
spliced h l e n = record {
  previous = update (update h.previous n e) e l;
  successor = update (update h.successor l e) e n;
}

-- Links that stand clear of the splice survive it.
spliced-Linked :
    (h : Heap) (l e n a : Ptr) (xs : List Ptr) (b : Ptr)
    → Linked h a xs b
    → NotIn l (a ∷ xs)
    → NotIn e (a ∷ xs)
    → NotIn n xs
    → b ≢ n
    → b ≢ e
    → Linked (spliced h l e n) a xs b
spliced-Linked h l e n a [] b k hl he hn bn be = ground arith
spliced-Linked h l e n a (x ∷ xs) b k hl he hn bn be =
    (ground arith, ground arith, spliced-Linked h l e n x xs b k.2 hl.1 he.1 hn.1 bn be)

-- The new element stands between `xs` and `ys`.
Linked-spliced :
    (h : Heap) (e a : Ptr) (xs ys : List Ptr) (b : Ptr)
    → Linked h a (xs ++ ys) b
    → Distinct (a ∷ xs ++ ys)
    → NotIn b (xs ++ ys)
    → NotIn e (b ∷ a ∷ xs ++ ys)
    → Linked (spliced h (last a xs) e (first ys b)) a (xs ++ e ∷ ys) b
Linked-spliced h e a [] [] b k d hb he = (ground arith, ground arith, (ground arith, ground arith))
Linked-spliced h e a [] (y ∷ ys) b k d hb he = (
  ground arith,
  ground arith,
  (
    ground arith,
    ground arith,
    spliced-Linked h a e y y ys b k.2 d.0 he.1.1 d.1.0 (ground arith) (ground arith),
  ),
)
Linked-spliced h e a (x ∷ xs) ys b k d hb he =
    let out = NotIn-split x xs ys d.1.0 in
    (
      ground (arith, last-NotIn a x xs (d.0.0, (NotIn-split a xs ys d.0.1).0)),
      ground (arith, first-NotIn x b ys (ground arith, out.1)),
      Linked-spliced h e x xs ys b k.2 d.1 hb.1 (he.0, he.1.1),
    )

insert-spliced :
    (h : Heap) (p e : Ptr)
    → p ≢ null
    → h.previous p ≢ null
    → e ≢ null
    → insert p e h ≡ some (p, spliced h (h.previous p) e p)
unfolding insert
insert-spliced h p e np nl ne =
    rw (get_previous-ok np, set_previous-ok np, set_next-ok nl, set_next-ok ne, set_previous-ok ne)

-- The splice in front of the first of `ys`, or of the sentinel.
IsRing-spliced :
    (h : Heap) (s e : Ptr) (xs ys : List Ptr)
    → IsRing h s (xs ++ ys)
    → NotIn e (null ∷ s ∷ xs ++ ys)
    → IsRing (spliced h (last s xs) e (first ys s)) s (xs ++ e ∷ ys)
IsRing-spliced h s e xs ys r out = record {
  allocated = (r.allocated.0, NotIn-insert null e xs ys (ground arith) r.allocated.1);
  distinct = (
    NotIn-insert s e xs ys (ground arith) r.distinct.0,
    Distinct-insert e xs ys r.distinct.1 out.1.1,
  );
  linked = Linked-spliced h e s xs ys s r.linked r.distinct r.distinct.0 (ground arith, out.1);
}

-- `insert` in front of the iterator that stands behind `xs` (at the first of `ys`, or at `end()`)
-- puts the element there, links it in both directions, keeps the order of the others, touches no
-- link outside the ring, and returns the iterator that it was given. The element must be allocated
-- and not in the ring.
pub insert-IsRing :
    (h : Heap) (s e : Ptr) (xs ys : List Ptr)
    → IsRing h s (xs ++ ys)
    → NotIn e (null ∷ s ∷ xs ++ ys)
    → (h' : Heap) × (insert (first ys s) e h ≡ some (first ys s, h'))
      × IsRing h' s (xs ++ e ∷ ys)
      × SameOutside (e ∷ s ∷ xs ++ ys) h h'
insert-IsRing h s e xs ys r out =
    let e_prev = previous-first h s xs ys s r.linked in
    let live = gap-NotIn null s xs ys r.allocated in
    (
      spliced h (last s xs) e (first ys s),
      rw (← e_prev) (insert-spliced h (first ys s) e live.1 (rw e_prev live.0) (ground arith)),
      IsRing-spliced h s e xs ys r out,
      λ q o. ground (arith, gap-NotIn q s xs ys o.1),
    )

-- `push_front` puts an allocated element that is not in the ring before all others, and
-- `push_back` behind them; both touch no link outside the ring.
pub push-IsRing :
    (h : Heap) (s e : Ptr) (xs : List Ptr)
    → IsRing h s xs
    → NotIn e (null ∷ s ∷ xs)
    → ((h' : Heap) × (push_front s e h ≡ some (first xs s, h'))
        × IsRing h' s (e ∷ xs)
        × SameOutside (e ∷ s ∷ xs) h h')
      × ((h' : Heap) × (push_back s e h ≡ some (s, h'))
          × IsRing h' s (xs ++ e ∷ [])
          × SameOutside (e ∷ s ∷ xs) h h')
unfolding push_front push_back
push-IsRing h s e xs r out =
    let back = insert-IsRing h s e xs [] (rw append-nil r) (rw append-nil out) in
    let front = insert-IsRing h s e [] xs r out in
    (
      (
        front.0,
        rw (get_next-ok r.allocated.0, successor-first h s xs s r.linked) front.1,
        front.2,
        front.3,
      ),
      (back.0, back.1, back.2, rw append-nil at back.3),
    )
