-- ===== src/IntrusiveList/Heap.antt =====
-- The links of all elements (`ListNode` of include/intrusive_list.h), and the commands that read
-- and write them. A read or a write through the null pointer is a fault.
use turbokit.Base.{ℕ, ◌≡◌, ◌≢◌, false, Option, none, some, arith, ◌==◌, if◌then◌else◌}
pub use turbokit.Base.{update}

abbrev pub Ptr : Type 0
Ptr = ℕ

abbrev pub null : Ptr
null = 0

pub record Heap : Type 0 where
  pub previous : Ptr → Ptr
  pub successor : Ptr → Ptr

abbrev pub M : Type 0 → Type 0
M A = Heap → Option (A × Heap)

abbrev pub fault : {A : Type 0} → Option (A × Heap)
fault = none

abbrev pub pure : {A : Type 0} → A → M A
pure a h = some (a, h)

module _ {A B : Type 0} where
  abbrev pub and_then : Option (A × Heap) → (A → M B) → Option (B × Heap)
  and_then none f = none
  and_then (some (a, h)) f = f a h

  infixl 5 ◌>>=◌ ◌>>◌
  abbrev pub ◌>>=◌ : M A → (A → M B) → M B
  m >>= f = λ h. and_then (m h) f

  abbrev pub ◌>>◌ : M A → M B → M B
  m >> n = m >>= λ _. n

unfoldable pub get_next : Ptr → M Ptr
get_next p h = if p == null then none else some (h.successor p, h)

unfoldable pub get_previous : Ptr → M Ptr
get_previous p h = if p == null then none else some (h.previous p, h)

unfoldable pub set_next : (p q : Ptr) → M (Unit {0})
set_next p q h =
    if p == null then none else some (tt, record h { successor = update h.successor p q })

unfoldable pub set_previous : (p q : Ptr) → M (Unit {0})
set_previous p q h =
    if p == null then none else some (tt, record h { previous = update h.previous p q })

module _ {p : Ptr} (ne : p ≢ null) where
  not_null : (p == null) ≡ false
  not_null = ground arith

  pub get_next-ok : (h : Heap) → get_next p h ≡ some (h.successor p, h)
  unfolding get_next
  get_next-ok h = rw not_null

  pub get_previous-ok : (h : Heap) → get_previous p h ≡ some (h.previous p, h)
  unfolding get_previous
  get_previous-ok h = rw not_null

  pub set_next-ok :
      (q : Ptr) (h : Heap)
      → set_next p q h ≡ some (tt, record h { successor = update h.successor p q })
  unfolding set_next
  set_next-ok q h = rw not_null

  pub set_previous-ok :
      (q : Ptr) (h : Heap)
      → set_previous p q h ≡ some (tt, record h { previous = update h.previous p q })
  unfolding set_previous
  set_previous-ok q h = rw not_null
