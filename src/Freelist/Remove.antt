-- ===== src/Freelist/Remove.antt =====
-- `remove_element` of include/freelist.h, against stacks of elements.
use turbokit.Base.{
  ℕ, ◌+◌, ◌-◌, ◌%◌, ◌^◌, ◌≡◌, ◌<◌, ◌≤◌, ◌⊎◌, refl, sym, ap, ◌∙◌, some, false, inl, inr, List, [],
  ◌∷◌, length, occurrences, ◌==◌, if◌then◌else◌, if_true, if_false, update, arith,
}
use mathlib.Core.Path.{subst}
use turbokit.Freelist.{State, ThreadLocalPool, remove_element, remove_from_shared_pool}
use turbokit.Freelist.Chains.{Chain}
use turbokit.Freelist.Pools.{
  Pools, get, occurrences_shared, total, Chunks, Represents, update-IsLocal,
}
use turbokit.Freelist.Give.{total-own}

List-cases : {A : Type 0} (xs : List A) → (xs ≡ []) ⊎ ((y : A) × (ys : List A) × (xs ≡ y ∷ ys))
List-cases [] = inl refl
List-cases (y ∷ ys) = inr (y, ys, refl)

pool-empty :
    (t : ℕ) (s : State) → s.available_elements ≡ [] → remove_from_shared_pool t s ≡ some (0, s)
unfolding remove_from_shared_pool
pool-empty t s e = rw e refl

pub pool-some :
    (t : ℕ) (s : State) (c : ℕ × ℕ) (cs : List (ℕ × ℕ))
    → s.available_elements ≡ c ∷ cs
    → 0 < c.0
    → remove_from_shared_pool t s
      ≡ some (
        c.0,
        record s {
          available_elements = cs;
          locals =
              update s.locals t (record {
                first_element = s.next c.0;
                element_count = (c.1 + 2 ^ 64 - 1) % 2 ^ 64;
              });
        },
      )
unfolding remove_from_shared_pool
pool-some t s c cs e pos = rw e (if_false {b = c.0 == 0} _ (ground (arith, pos)))

Chunks-nil : (next : ℕ → ℕ) (most : ℕ) (cs : List (ℕ × ℕ)) → Chunks next most cs [] → cs ≡ []
Chunks-nil next most [] c = refl
Chunks-nil next most (d ∷ cs) c = absurd c

Chunks-inhabited :
    (next : ℕ → ℕ) (most : ℕ) (cs : List (ℕ × ℕ)) (xss : List (List ℕ))
    → Chunks next most cs ([] ∷ xss)
    → ⊥
Chunks-inhabited next most [] xss c = c
Chunks-inhabited next most (d ∷ cs) xss c = absurd (omega (arith, c.2))

Chunks-cons :
    (next : ℕ → ℕ) (most : ℕ) (cs : List (ℕ × ℕ)) (xs : List ℕ) (xss : List (List ℕ))
    → Chunks next most cs (xs ∷ xss)
    → (d : ℕ × ℕ) × (ds : List (ℕ × ℕ)) × (cs ≡ d ∷ ds)
      × Chain next d.0 xs
      × (d.1 ≡ length xs)
      × (0 < length xs)
      × (length xs ≤ most)
      × Chunks next most ds xss
Chunks-cons next most [] xs xss c = absurd c
Chunks-cons next most (d ∷ ds) xs xss c = (d, ds, refl, c.0, c.1, c.2, c.3, c.4)

pub get-own :
    (t : ℕ) (p : Pools) (x : ℕ) (xs : List ℕ)
    → p.own t ≡ x ∷ xs
    → get t p ≡ (x, record p { own = update p.own t xs })
unfolding get
get-own t p x xs e = rw (get, e) refl

get-nothing : (t : ℕ) (p : Pools) → p.own t ≡ [] → p.shared ≡ [] → get t p ≡ (0, p)
unfolding get
get-nothing t p e es = rw (get, e, es) (ap (λ xss. (0, record p { shared = xss })) es)

get-shared :
    (t : ℕ) (p : Pools) (x : ℕ) (xs : List ℕ) (xss : List (List ℕ))
    → p.own t ≡ []
    → p.shared ≡ (x ∷ xs) ∷ xss
    → get t p ≡ (x, record { own = update p.own t xs; shared = xss })
unfolding get
get-shared t p x xs xss e es = rw (get, e, es) refl

module _ (n most : ℕ) (small : most < 2 ^ 64) (t : ℕ) (ht : t < n) (s : State) (p : Pools) where
  -- The call returns `r`, the pools are `q` then, and nothing but `r` has left them.
  Removed : ℕ × Pools → Type 0
  Removed (r, q) =
      (s' : State) × (remove_element t s ≡ some (r, s'))
      × Represents n most s' q
      × ((x : ℕ) → 0 < x → total n p x ≡ total n q x + (if r == x then 1 else 0))
      × (r ≡ 0 → (p.own t ≡ []) × (p.shared ≡ []))

  remove-own :
      (x : ℕ) (xs : List ℕ)
      → Represents n most s p
      → p.own t ≡ x ∷ xs
      → Removed (x, record p { own = update p.own t xs })
  unfolding Removed remove_element
  remove-own x xs h e =
      let local = h.locals t ht in
      let (first, pos, rest) = subst (Chain s.next (s.locals t).first_element) e local.0 in
      let l : ThreadLocalPool = record {
        first_element = s.next (s.locals t).first_element;
        element_count = ((s.locals t).element_count + 2 ^ 64 - 1) % 2 ^ 64;
      } in
      let totals : (y : ℕ)
          → total n p y
            ≡ total n (record p { own = update p.own t xs }) y + (if x == y then 1 else 0) =
        λ y. omega (arith, total-own n t y p.own xs ht, ap (occurrences y) e) in
      (
        record s { locals = update s.locals t l },
        if_false {b = (s.locals t).first_element == 0} _ (ground (arith, first, pos))
            ∙ ap (λ r. some (r, record s { locals = update s.locals t l })) first,
        record {
          locals =
              update-IsLocal s.next n most t s.locals p.own l xs (λ u hu ne. h.locals u hu)
                (
                  subst (λ f. Chain s.next (s.next f) xs) (sym first) rest,
                  omega (arith, local.1, local.2, ap length e),
                  omega (arith, local.2, ap length e),
                );
          chunks = h.chunks;
          once = λ y. omega (arith, h.once y, totals y);
        },
        λ y py. totals y,
        λ z. absurd (omega (arith, z, pos)),
      )

  remove-nothing : Represents n most s p → p.own t ≡ [] → p.shared ≡ [] → Removed (0, p)
  unfolding Removed remove_element
  remove-nothing h e es =
      let local = h.locals t ht in
      let first : (s.locals t).first_element ≡ 0 =
        subst (Chain s.next (s.locals t).first_element) e local.0 in
      (
        s,
        if_true {b = (s.locals t).first_element == 0} _ (ground (arith, first))
            ∙ pool-empty t s (
                Chunks-nil s.next most s.available_elements
                  (subst (Chunks s.next most s.available_elements) es h.chunks)),
        h,
        λ y py. let other : (0 == y) ≡ false = ground (arith, py) in rw other (omega arith),
        λ z. (e, es),
      )

  remove-shared :
      (x : ℕ) (xs : List ℕ) (xss : List (List ℕ))
      → Represents n most s p
      → p.own t ≡ []
      → p.shared ≡ (x ∷ xs) ∷ xss
      → Removed (x, record { own = update p.own t xs; shared = xss })
  unfolding Removed remove_element
  remove-shared x xs xss h e es =
      let local = h.locals t ht in
      let first : (s.locals t).first_element ≡ 0 =
        subst (Chain s.next (s.locals t).first_element) e local.0 in
      let (c, cs, ec, (at_c, pos, rest), count, some_, le, more) =
        Chunks-cons s.next most s.available_elements (x ∷ xs) xss
          (subst (Chunks s.next most s.available_elements) es h.chunks) in
      let l : ThreadLocalPool = record {
        first_element = s.next c.0;
        element_count = (c.1 + 2 ^ 64 - 1) % 2 ^ 64;
      } in
      let totals : (y : ℕ)
          → total n p y
            ≡ total n (record { own = update p.own t xs; shared = xss }) y
              + (if x == y then 1 else 0) =
        λ y. omega (
          arith,
          total-own n t y p.own xs ht,
          ap (occurrences y) e,
          ap (occurrences_shared y) es,
        ) in
      (
        record s { available_elements = cs; locals = update s.locals t l },
        if_true {b = (s.locals t).first_element == 0} _ (ground (arith, first))
            ∙ pool-some t s c cs ec (omega arith)
            ∙ ap (λ r. some (r, record s { available_elements = cs; locals = update s.locals t l }))
                at_c,
        record {
          locals =
              update-IsLocal s.next n most t s.locals p.own l xs (λ u hu ne. h.locals u hu)
                (
                  subst (λ f. Chain s.next (s.next f) xs) (sym at_c) rest,
                  omega (arith, count, le),
                  omega (arith, le),
                );
          chunks = more;
          once = λ y. omega (arith, h.once y, totals y);
        },
        λ y py. totals y,
        λ z. absurd (omega (arith, z, pos)),
      )

  -- A thread that has an element gets the one that it added last; one that has none takes over the
  -- elements that were given away last, and gets the first of them; the null pointer is returned where
  -- there are none either. No null pointer is met, and but for the element returned every element stays
  -- where it was or goes to the thread; the counts are below `2 ^ 64`.
  pub remove_element-get :
      Represents n most s p
      → (s' : State) × (remove_element t s ≡ some ((get t p).0, s'))
        × Represents n most s' (get t p).1
        × ((x : ℕ)
            → 0 < x
            → total n p x ≡ total n (get t p).1 x + (if (get t p).0 == x then 1 else 0))
        × ((get t p).0 ≡ 0 → (p.own t ≡ []) × (p.shared ≡ []))
  unfolding Removed get
  remove_element-get h = elim (List-cases (p.own t)) [
    | inr (x, xs, e) ↦ subst Removed (sym (get-own t p x xs e)) (remove-own x xs h e)
    | inl e ↦ elim (List-cases p.shared) [
      | inl es ↦ subst Removed (sym (get-nothing t p e es)) (remove-nothing h e es)
      | inr ([], xss, es) ↦ absurd (
          Chunks-inhabited s.next most s.available_elements xss
            (subst (Chunks s.next most s.available_elements) es h.chunks))
      | inr (x ∷ xs, xss, es) ↦
          subst Removed (sym (get-shared t p x xs xss e es)) (remove-shared x xs xss h e es)
    ]
  ]
