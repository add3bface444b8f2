-- ===== src/IntrusiveList/MoveAssign.antt =====
-- `clear`, the constructor, `empty`, `front`, `back` and the move assignment of
-- include/intrusive_list.h.
use turbokit.Base.{◌≡◌, ◌≢◌, some, Bool, true, false, List, [], ◌∷◌, arith}
use turbokit.IntrusiveList.{clear, construct, empty, front, back, move_assign}
use turbokit.IntrusiveList.Heap.{
  Ptr, null, Heap, update, get_next-ok, get_previous-ok, set_next-ok, set_previous-ok,
}
use turbokit.IntrusiveList.Ring.{
  NotIn, Distinct, Linked, IsRing, last, first, last-NotIn, previous-last, successor-first,
}

abbrev pub cleared : Heap → Ptr → Heap
cleared h s = record { previous = update h.previous s s; successor = update h.successor s s }

-- The constructor and `clear` make the ring of no elements, and touch only the sentinel.
pub clear-IsRing :
    (h : Heap) (s : Ptr)
    → s ≢ null
    → (clear s h ≡ some (tt, cleared h s))
      × (construct s h ≡ some (tt, cleared h s))
      × IsRing (cleared h s) s []
unfolding clear construct
clear-IsRing h s ne = (
  rw (set_previous-ok ne, set_next-ok ne),
  rw (set_previous-ok ne, set_next-ok ne),
  record { allocated = (ne, tt); distinct = (tt, tt); linked = (ground arith, ground arith) },
)

abbrev pub is_nil : List Ptr → Bool
is_nil [] = true
is_nil (x ∷ xs) = false

empty-ok : (h : Heap) (s : Ptr) (xs : List Ptr) → IsRing h s xs → empty s h ≡ some (is_nil xs, h)
unfolding empty
empty-ok h s [] r = rw (get_next-ok r.allocated.0) (ground arith)
empty-ok h s (x ∷ xs) r = rw (get_next-ok r.allocated.0) (ground arith)

-- `empty` tells exactly whether there is an element; `front` and `back` are the first and the last
-- one, and none of the three changes a link.
pub observe-IsRing :
    (h : Heap) (s : Ptr) (xs : List Ptr)
    → IsRing h s xs
    → (empty s h ≡ some (is_nil xs, h))
      × (front s h ≡ some (first xs s, h))
      × (back s h ≡ some (last s xs, h))
unfolding front back
observe-IsRing h s xs r = (
  empty-ok h s xs r,
  rw (get_next-ok r.allocated.0, successor-first h s xs s r.linked),
  rw (get_previous-ok r.allocated.0, previous-last h s xs s r.linked),
)

-- The heap after `s` has taken the place of the other sentinel, which is left alone in its ring.
abbrev taken : Heap → (s o l n : Ptr) → Heap
taken h s o l n =
    cleared
      (record {
        previous = update (update h.previous n s) s l;
        successor = update (update h.successor l s) s n;
      })
      o

Linked-taken :
    (h : Heap) (s o n x : Ptr) (xs : List Ptr)
    → Linked h x xs o
    → Distinct (x ∷ xs)
    → NotIn s (o ∷ x ∷ xs)
    → NotIn o (x ∷ xs)
    → NotIn n xs
    → Linked (taken h s o (last x xs) n) x xs s
Linked-taken h s o n x [] k d hs ho hn = (ground arith, ground arith)
Linked-taken h s o n x (y ∷ ys) k d hs ho hn = (
  ground (arith, last-NotIn x y ys d.0),
  ground arith,
  Linked-taken h s o n y ys k.2 d.1 (hs.0, hs.1.1) ho.1 hn.1,
)

-- The move assignment hands the elements of the other list over in order and leaves the other list
-- empty, whether or not it had any. The sentinel must be allocated and stand outside that list.
pub move_assign-IsRing :
    (h : Heap) (s o : Ptr) (xs : List Ptr)
    → IsRing h o xs
    → NotIn s (null ∷ o ∷ xs)
    → (h' : Heap) × (move_assign s o h ≡ some (tt, h')) × IsRing h' s xs × IsRing h' o []
unfolding move_assign
move_assign-IsRing h s o [] r out =
    let c = clear-IsRing h s (ground arith) in
    (
      cleared h s,
      rw (empty-ok h o [] r) c.0,
      c.2,
      record {
        allocated = r.allocated;
        distinct = r.distinct;
        linked = (ground arith, ground arith);
      },
    )
move_assign-IsRing h s o (x ∷ xs) r out =
    let ne : s ≢ null = ground arith in
    let e_last = previous-last h x xs o r.linked.2 in
    let live = last-NotIn null x xs r.allocated.1 in
    let moved =
      Linked-taken h s o x x xs r.linked.2 r.distinct.1 out.1 r.distinct.0 r.distinct.1.0 in
    (
      taken h s o (last x xs) x,
      rw (
        empty-ok h o (x ∷ xs) r,
        get_previous-ok r.allocated.0,
        get_next-ok r.allocated.0,
        r.linked.0,
        e_last,
        set_previous-ok r.allocated.1.0,
        set_next-ok live,
        set_previous-ok ne,
        set_next-ok ne,
        (clear-IsRing _ o r.allocated.0).0,
      ),
      record {
        allocated = (ne, r.allocated.1);
        distinct = (out.1.1, r.distinct.1);
        linked = (ground arith, ground (arith, last-NotIn o x xs r.distinct.0), moved);
      },
      record {
        allocated = (r.allocated.0, tt);
        distinct = (tt, tt);
        linked = (ground arith, ground arith);
      },
    )
