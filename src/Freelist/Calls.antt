-- ===== src/Freelist/Calls.antt =====
-- Calls of include/freelist.h after one another.
use turbokit.Base.{
  ℕ, ◌-◌, ◌/◌, ◌^◌, ◌≡◌, ◌≢◌, ◌<◌, ◌≤◌, refl, ap, ◌∙◌, Bool-cases, inl, inr, none, some, List, [],
  ◌∷◌, length, ◌==◌, if◌then◌else◌, if_true, update, update_self, update_other, arith,
}
use mathlib.Core.Path.{subst}
use turbokit.Freelist.{
  State, walk, push_element, add_element, remove_element, remove_from_shared_pool, ◌>>=◌,
}
use turbokit.Freelist.Chains.{Chain}
use turbokit.Freelist.Pools.{Pools, give_away, put_element, put, get, total, Represents}
use turbokit.Freelist.Give.{given, transfer-given}
use turbokit.Freelist.Refine.{add_element-put}
use turbokit.Freelist.Remove.{remove_element-get, get-own}

get-put_element : (t e : ℕ) (p : Pools) → (get t (put_element t e p)).0 ≡ e
unfolding put_element
get-put_element t e p =
    ap (λ r. r.0)
      (get-own t (record p { own = update p.own t (e ∷ p.own t) }) e (p.own t)
        (update_self p.own t (e ∷ p.own t)))

get-put : (t e most : ℕ) (p : Pools) → (get t (put t e most p)).0 ≡ e
unfolding put
get-put t e most p = elim (Bool-cases (length (p.own t) == most)) [
  | inl full ↦ rw full (get-put_element t e (give_away t (most / 8) p))
  | inr room ↦ rw room (get-put_element t e p)
]

-- A thread that adds an element, whether or not that makes it give others away, and then removes one,
-- gets the same element back, and every element is where it was or in one other place; with the same
-- conditions as for adding.
pub remove_element-add_element :
    (n most : ℕ)
    → most < 2 ^ 64
    → (t : ℕ) → t < n
    → (s : State) (p : Pools) (e : ℕ) → 2 ≤ most
    → 0 < e
    → total n p e ≡ 0
    → Represents n most s p
    → (s' : State) × (q : Pools) × ((add_element t e most s >>= remove_element t) ≡ some (e, s'))
      × Represents n most s' q
      × ((x : ℕ) → 0 < x → total n q x ≡ total n p x)
remove_element-add_element n most small t ht s p e two pos new h =
    let (s1, eq, h1, totals) = add_element-put n most small t ht s p e two pos new h in
    let (s2, eq2, h2, totals2, _) = remove_element-get n most small t ht s1 (put t e most p) h1 in
    (
      s2,
      (get t (put t e most p)).1,
      ap (λ o. o >>= remove_element t) eq ∙ eq2 ∙ ap (λ r. some (r, s2)) (get-put t e most p),
      h2,
      λ x px. omega (
        arith,
        totals x,
        totals2 x px,
        ap {B = ℕ} (λ r. if r == x then 1 else 0) (get-put t e most p),
      ),
    )

-- A chain of one element ends behind it.
single :
    (next : ℕ → ℕ) (f : ℕ) (xs : List ℕ) → length xs ≡ 1 → Chain next f xs → (0 < f) × (next f ≡ 0)
single next f [] one c = absurd (omega (arith, one))
single next f (x ∷ []) one (at, pos, rest) = (omega arith, ap next at ∙ rest)
single next f (x ∷ y ∷ ys) one c = absurd (omega (arith, one))

walk_none : (next : ℕ → ℕ) (f : ℕ) → walk (0 - 1) next f ≡ some f
unfolding walk
walk_none next f = refl

push_element-other :
    (t e : ℕ) (s : State) (u : ℕ) → u ≢ t → (push_element t e s).locals u ≡ s.locals u
unfolding push_element
push_element-other t e s u ne = update_other s.locals t _ u ne

push_element-available :
    (t e : ℕ) (s : State) → (push_element t e s).available_elements ≡ s.available_elements
unfolding push_element
push_element-available t e s = refl

remove-null :
    (u : ℕ) (s : State) (c : ℕ × ℕ) (cs : List (ℕ × ℕ))
    → (s.locals u).first_element ≡ 0
    → s.available_elements ≡ c ∷ cs
    → c.0 ≡ 0
    → remove_element u s ≡ none
unfolding remove_element remove_from_shared_pool
remove-null u s c cs first e null =
    if_true {b = (s.locals u).first_element == 0} _ (ground (arith, first))
    ∙ rw e (if_true {b = c.0 == 0} _ (ground (arith, null)))

-- With a limit of one element a thread that has it gives nothing away, as an empty chain: the next
-- removal by a thread that has none reads through the null pointer.
pub remove_element-limit_one :
    (n : ℕ) (s : State) (p : Pools) (t u e : ℕ)
    → t < n
    → u < n
    → u ≢ t
    → Represents n 1 s p
    → length (p.own t) ≡ 1
    → p.own u ≡ []
    → (add_element t e 1 s >>= remove_element u) ≡ none
unfolding add_element
remove_element-limit_one n s p t u e ht hu ne h one nothing =
    let local = h.locals t ht in
    let other = h.locals u hu in
    let (live, last) = single s.next (s.locals t).first_element (p.own t) one local.0 in
    let s1 = given n 1 s p t 0 (s.locals t).first_element in
    ap (λ o. o >>= remove_element u)
      (if_true {b = (s.locals t).element_count == 1} _ (ground (arith, local.1, one))
        ∙ ap (λ o. o >>= λ s'. some (push_element t e s'))
            (transfer-given n 1 s p t 0 (s.locals t).first_element (walk_none _ _) live))
    ∙ remove-null u (push_element t e s1) (s.next (s.locals t).first_element, _)
        s.available_elements
        (ap (λ l. l.first_element) (push_element-other t e s1 u ne ∙ update_other s.locals t _ u ne)
          ∙ subst (Chain s.next (s.locals u).first_element) nothing other.0)
        (push_element-available t e s1) last
