-- ===== src/Tests/Rings.antt =====
-- Concrete rings for include/intrusive_list.h.
use turbokit.Base.{◌≡◌, some, [], ◌∷◌, arith, ◌==◌, if◌then◌else◌}
use turbokit.IntrusiveList.{insert, erase, traverse}
use turbokit.IntrusiveList.Heap.{Heap, null, ◌>>◌}
use turbokit.IntrusiveList.Ring.{IsRing, SameOutside}
use turbokit.IntrusiveList.Insert.{insert-IsRing}
use turbokit.IntrusiveList.Erase.{erase-IsRing}
use turbokit.IntrusiveList.Traverse.{insert-traverse}

-- The sentinel at 1, the elements at 2 and 3.
abbrev ring : Heap
ring = record {
  previous = λ p. if p == 1 then 3 else if p == 2 then 1 else if p == 3 then 2 else 0;
  successor = λ p. if p == 1 then 2 else if p == 2 then 3 else if p == 3 then 1 else 0;
}

ring-IsRing : IsRing ring 1 (2 ∷ 3 ∷ [])
ring-IsRing = record { allocated = ground arith; distinct = ground arith; linked = ground arith }

insert-IsRing_example :
    (h : Heap) × (insert 3 4 ring ≡ some (3, h))
    × IsRing h 1 (2 ∷ 4 ∷ 3 ∷ [])
    × SameOutside (4 ∷ 1 ∷ 2 ∷ 3 ∷ []) ring h
insert-IsRing_example = insert-IsRing ring 1 4 (2 ∷ []) (3 ∷ []) ring-IsRing (ground arith)

erase-IsRing_example :
    (h : Heap) × (erase 2 ring ≡ some (3, h))
    × IsRing h 1 (3 ∷ [])
    × ((h.previous 2 ≡ null) × (h.successor 2 ≡ null))
    × SameOutside (1 ∷ 2 ∷ 3 ∷ []) ring h
erase-IsRing_example = erase-IsRing ring 1 2 [] (3 ∷ []) ring-IsRing

insert-traverse_example :
    (h1 h2 : Heap) × ((insert 3 4 >> traverse 4 1) ring ≡ some (2 ∷ 4 ∷ 3 ∷ [], h1))
    × ((erase 4 >> traverse 3 1) h1 ≡ some (2 ∷ 3 ∷ [], h2))
insert-traverse_example = insert-traverse ring 1 4 (2 ∷ []) (3 ∷ []) ring-IsRing (ground arith)
