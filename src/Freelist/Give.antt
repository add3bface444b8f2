-- ===== src/Freelist/Give.antt =====
-- `transfer_to_shared_pool` of include/freelist.h.
use turbokit.Base.{
  ℕ, suc, ◌+◌, ◌-◌, ◌%◌, ◌^◌, ◌≡◌, ◌≢◌, ◌<◌, ◌≤◌, refl, ap, ◌∙◌, none, some, false, List, [], ◌∷◌,
  length, take, drop, length-take, length-drop, occurrences, sum, sum-change, sum_le, sum_le_two,
  update_self, update_other, ◌==◌, if◌then◌else◌, update, arith,
}
use mathlib.Core.Path.{subst}
use turbokit.Freelist.{State, new_count, walk, transfer_to_shared_pool, ◌>>=◌}
use turbokit.Freelist.Chains.{Chain, Cut, Chain-Cut, update-Chain, occurrences-take-drop}
use turbokit.Freelist.Pools.{
  Pools, give_away, occurrences_shared, total, Chunks, Represents, update-IsLocal,
}

pub Chunks-update :
    (next : ℕ → ℕ) (e v most : ℕ) (cs : List (ℕ × ℕ)) (xss : List (List ℕ))
    → occurrences_shared e xss ≡ 0
    → Chunks next most cs xss
    → Chunks (update next e v) most cs xss
Chunks-update next e v most [] [] h c = tt
Chunks-update next e v most [] (xs ∷ xss) h c = absurd c
Chunks-update next e v most (d ∷ cs) [] h c = absurd c
Chunks-update next e v most (d ∷ cs) (xs ∷ xss) h (c, l, pos, le, rest) = (
  update-Chain next e v d.0 xs (omega arith) c,
  l,
  pos,
  le,
  Chunks-update next e v most cs xss (omega arith) rest,
)

-- A thread's stack is another one: what is counted changes by the difference.
pub total-own :
    (n t e : ℕ) (own : ℕ → List ℕ) (ys : List ℕ)
    → t < n
    → sum n (λ i. occurrences e (update own t ys i)) + occurrences e (own t)
      ≡ sum n (λ i. occurrences e (own i)) + occurrences e ys
total-own n t e own ys h =
    sum-change n t (λ i. occurrences e (update own t ys i)) (λ i. occurrences e (own i)) h
      (λ i li ne. ap (occurrences e) (update_other own t ys i ne))
    ∙ ap (λ l. sum n (λ i. occurrences e (own i)) + occurrences e l) (update_self own t ys)

pub give_away-total :
    (n t r : ℕ) (p : Pools) (e : ℕ) → t < n → total n (give_away t r p) e ≡ total n p e
unfolding give_away
give_away-total n t r p e h = omega (
  arith,
  total-own n t e p.own (take (new_count r) (p.own t)) h,
  occurrences-take-drop e (new_count r) (p.own t),
)

-- An element of one thread's stack is in no other, and not in the shared pool.
pub elsewhere :
    (n t u : ℕ) (p : Pools) (e : ℕ)
    → t < n
    → u < n
    → u ≢ t
    → total n p e ≤ 1
    → 1 ≤ occurrences e (p.own t)
    → occurrences e (p.own u) ≡ 0
elsewhere n t u p e ht hu ne once there =
    omega (arith, sum_le_two n u t (λ i. occurrences e (p.own i)) hu ht ne)

pub not_shared :
    (n t : ℕ) (p : Pools) (e : ℕ)
    → t < n
    → total n p e ≤ 1
    → 1 ≤ occurrences e (p.own t)
    → occurrences_shared e p.shared ≡ 0
not_shared n t p e ht once there = omega (arith, sum_le n t (λ i. occurrences e (p.own i)) ht)

module _ (n most : ℕ) (s : State) (p : Pools) (t r : ℕ) where
  abbrev cut_next : ℕ → ℕ → ℕ
  cut_next current = update s.next current 0

  abbrev pub given : ℕ → State
  given current = record {
    next = update s.next current 0;
    locals = update s.locals t (record (s.locals t) { element_count = new_count r });
    available_elements =
        (s.next current, ((s.locals t).element_count + 2 ^ 64 - new_count r) % 2 ^ 64)
        ∷ s.available_elements;
  }

  pub transfer-given :
      (current : ℕ)
      → walk (r - 1) s.next (s.locals t).first_element ≡ some current
      → 0 < current
      → transfer_to_shared_pool t r s ≡ some (given current)
  unfolding transfer_to_shared_pool
  transfer-given current e pos =
      ap (λ o. o >>= λ c. if c == 0 then none else some (given c)) e
      ∙ (let live : (current == 0) ≡ false = ground arith in rw live refl)

  given-Represents :
      t < n
      → most < 2 ^ 64
      → new_count r < length (p.own t)
      → Represents n most s p
      → (c : Cut s.next (s.locals t).first_element (r - 1) (p.own t))
      → Represents n most (given c.current) (give_away t r p)
  unfolding give_away
  given-Represents ht small more h c =
      let kept : suc (r - 1) ≡ new_count r = omega arith in
      let there : 1 ≤ occurrences c.current (p.own t) =
        omega (arith, c.there, occurrences-take-drop c.current (suc (r - 1)) (p.own t)) in
      let local = h.locals t ht in
      record {
        locals =
            update-IsLocal (update s.next c.current 0) n most t s.locals p.own
              (record (s.locals t) { element_count = new_count r }) (take (new_count r) (p.own t))
              (λ u hu ne.
                let l = h.locals u hu in
                (
                  update-Chain s.next c.current 0 (s.locals u).first_element (p.own u)
                      (elsewhere n t u p c.current ht hu ne (h.once c.current) there) l.0,
                  l.1,
                  l.2,
                ))
              (
                subst
                    (λ k.
                      Chain (update s.next c.current 0) (s.locals t).first_element
                        (take k (p.own t)))
                    kept c.retained,
                omega (arith, length-take (new_count r) (p.own t)),
                omega (arith, length-take (new_count r) (p.own t), local.2),
              );
        chunks = (
          update-Chain s.next c.current 0 (s.next c.current) (drop (new_count r) (p.own t))
              (omega (
                arith,
                c.there,
                h.once c.current,
                kept,
                ap (λ k. occurrences c.current (take k (p.own t))) kept,
                occurrences-take-drop c.current (new_count r) (p.own t),
                sum_le n t (λ i. occurrences c.current (p.own i)) ht,
              ))
              (subst (λ k. Chain s.next (s.next c.current) (drop k (p.own t))) kept c.rest),
          omega (arith, local.1, local.2, length-drop (new_count r) (p.own t)),
          omega (arith, length-drop (new_count r) (p.own t)),
          omega (arith, local.2, length-drop (new_count r) (p.own t)),
          Chunks-update s.next c.current 0 most s.available_elements p.shared
              (not_shared n t p c.current ht (h.once c.current) there) h.chunks,
        );
        once = λ e. rw (give_away-total n t r p e ht) (h.once e);
      }

-- `transfer_to_shared_pool` of a thread that has more elements than it is to retain meets no null
-- pointer, and gives away the elements behind those that it retains.
pub transfer-Represents :
    (n most : ℕ) (s : State) (p : Pools) (t r : ℕ)
    → t < n
    → most < 2 ^ 64
    → new_count r < length (p.own t)
    → Represents n most s p
    → (s' : State) × (transfer_to_shared_pool t r s ≡ some s')
      × Represents n most s' (give_away t r p)
transfer-Represents n most s p t r ht small more h =
    let c =
      Chain-Cut s.next (s.locals t).first_element (r - 1) (p.own t) (h.locals t ht).0 (omega arith)
        (λ e. omega (arith, h.once e, sum_le n t (λ i. occurrences e (p.own i)) ht)) in
    (
      given n most s p t r c.current,
      transfer-given n most s p t r c.current c.walked c.valid,
      given-Represents n most s p t r ht small more h c,
    )
