-- ===== src/IntrusiveList/Ring.antt =====
-- What a list of include/intrusive_list.h stands for: the addresses of its elements in order, each
-- linked to its neighbours in both directions, with the sentinel closing the ring.
use turbokit.Base.{◌≡◌, ◌≢◌, List, [], ◌∷◌, ◌++◌, arith}
use turbokit.IntrusiveList.Heap.{Ptr, null, Heap}

-- `p` is none of `xs`.
abbrev pub NotIn : Ptr → List Ptr → Type 0
NotIn p [] = Unit
NotIn p (x ∷ xs) = (x ≢ p) × NotIn p xs

abbrev pub Distinct : List Ptr → Type 0
Distinct [] = Unit
Distinct (x ∷ xs) = NotIn x xs × Distinct xs

-- From `a` through `xs` to `b`, forwards and backwards.
abbrev pub Linked : Heap → Ptr → List Ptr → Ptr → Type 0
Linked h a [] b = (h.successor a ≡ b) × (h.previous b ≡ a)
Linked h a (x ∷ xs) b = (h.successor a ≡ x) × (h.previous x ≡ a) × Linked h x xs b

pub record IsRing (h : Heap) (sentinel : Ptr) (xs : List Ptr) : Type 0 where
  pub allocated : NotIn null (sentinel ∷ xs)
  pub distinct : Distinct (sentinel ∷ xs)
  pub linked : Linked h sentinel xs sentinel

abbrev pub last : Ptr → List Ptr → Ptr
last a [] = a
last a (x ∷ xs) = last x xs

abbrev pub first : List Ptr → Ptr → Ptr
first [] b = b
first (x ∷ xs) b = x

pub last-NotIn : (p a : Ptr) (xs : List Ptr) → NotIn p (a ∷ xs) → last a xs ≢ p
last-NotIn p a [] h = h.0
last-NotIn p a (x ∷ xs) h = last-NotIn p x xs h.1

pub first-NotIn : (p b : Ptr) (xs : List Ptr) → NotIn p (b ∷ xs) → first xs b ≢ p
first-NotIn p b [] h = h.0
first-NotIn p b (x ∷ xs) h = h.1.0

pub previous-last :
    (h : Heap) (a : Ptr) (xs : List Ptr) (b : Ptr) → Linked h a xs b → h.previous b ≡ last a xs
previous-last h a [] b l = l.1
previous-last h a (x ∷ xs) b l = previous-last h x xs b l.2

pub successor-first :
    (h : Heap) (a : Ptr) (xs : List Ptr) (b : Ptr) → Linked h a xs b → h.successor a ≡ first xs b
successor-first h a [] b l = l.0
successor-first h a (x ∷ xs) b l = l.0

pub Linked-append :
    (h : Heap) (a : Ptr) (xs : List Ptr) (p : Ptr) (ys : List Ptr) (b : Ptr)
    → Linked h a xs p
    → Linked h p ys b
    → Linked h a (xs ++ p ∷ ys) b
Linked-append h a [] p ys b l m = (l.0, l.1, m)
Linked-append h a (x ∷ xs) p ys b l m = (l.0, l.1, Linked-append h x xs p ys b l.2 m)

pub Linked-split :
    (h : Heap) (a : Ptr) (xs : List Ptr) (p : Ptr) (ys : List Ptr) (b : Ptr)
    → Linked h a (xs ++ p ∷ ys) b
    → Linked h a xs p × Linked h p ys b
Linked-split h a [] p ys b l = ((l.0, l.1), l.2)
Linked-split h a (x ∷ xs) p ys b l =
    let rest = Linked-split h x xs p ys b l.2 in ((l.0, l.1, rest.0), rest.1)

pub NotIn-split : (p : Ptr) (xs ys : List Ptr) → NotIn p (xs ++ ys) → NotIn p xs × NotIn p ys
NotIn-split p [] ys h = (tt, h)
NotIn-split p (x ∷ xs) ys h = let rest = NotIn-split p xs ys h.1 in ((h.0, rest.0), rest.1)

pub NotIn-insert :
    (p e : Ptr) (xs ys : List Ptr) → e ≢ p → NotIn p (xs ++ ys) → NotIn p (xs ++ e ∷ ys)
NotIn-insert p e [] ys ne h = (ne, h)
NotIn-insert p e (x ∷ xs) ys ne h = (h.0, NotIn-insert p e xs ys ne h.1)

pub NotIn-delete : (p e : Ptr) (xs ys : List Ptr) → NotIn p (xs ++ e ∷ ys) → NotIn p (xs ++ ys)
NotIn-delete p e [] ys h = h.1
NotIn-delete p e (x ∷ xs) ys h = (h.0, NotIn-delete p e xs ys h.1)

pub Distinct-insert :
    (e : Ptr) (xs ys : List Ptr)
    → Distinct (xs ++ ys)
    → NotIn e (xs ++ ys)
    → Distinct (xs ++ e ∷ ys)
Distinct-insert e [] ys d out = (out, d)
Distinct-insert e (x ∷ xs) ys d out =
    (NotIn-insert x e xs ys (ground arith) d.0, Distinct-insert e xs ys d.1 out.1)

pub Distinct-delete : (e : Ptr) (xs ys : List Ptr) → Distinct (xs ++ e ∷ ys) → Distinct (xs ++ ys)
Distinct-delete e [] ys d = d.1
Distinct-delete e (x ∷ xs) ys d = (NotIn-delete x e xs ys d.0, Distinct-delete e xs ys d.1)

-- The element taken out is none of the others.
pub NotIn-Distinct : (e : Ptr) (xs ys : List Ptr) → Distinct (xs ++ e ∷ ys) → NotIn e (xs ++ ys)
NotIn-Distinct e [] ys d = d.0
NotIn-Distinct e (x ∷ xs) ys d =
    let apart = NotIn-split x xs (e ∷ ys) d.0 in (ground arith, NotIn-Distinct e xs ys d.1)

-- Nothing but the links of `xs` has changed.
abbrev pub SameOutside : List Ptr → Heap → Heap → Type 0
SameOutside xs h h' =
    (q : Ptr) → NotIn q xs → (h'.previous q ≡ h.previous q) × (h'.successor q ≡ h.successor q)

pub previous-first :
    (h : Heap) (a : Ptr) (xs ys : List Ptr) (b : Ptr)
    → Linked h a (xs ++ ys) b
    → h.previous (first ys b) ≡ last a xs
previous-first h a [] [] b k = k.1
previous-first h a [] (y ∷ ys) b k = k.1
previous-first h a (x ∷ xs) ys b k = previous-first h x xs ys b k.2

-- The neighbours of the gap between `xs` and `ys` are none of what stands outside the ring.
pub gap-NotIn :
    (p s : Ptr) (xs ys : List Ptr) → NotIn p (s ∷ xs ++ ys) → (last s xs ≢ p) × (first ys s ≢ p)
gap-NotIn p s xs ys out =
    let parts = NotIn-split p xs ys out.1 in
    (last-NotIn p s xs (out.0, parts.0), first-NotIn p s ys (out.0, parts.1))
