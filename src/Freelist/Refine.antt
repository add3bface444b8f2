-- ===== src/Freelist/Refine.antt =====
-- `add_element` and `remove_element` of include/freelist.h, against stacks of elements.
use turbokit.Base.{
  if_true, if_false, ℕ, ◌+◌, ◌/◌, ◌%◌, ◌^◌, ◌≡◌, ◌<◌, ◌≤◌, refl, sym, ap, ◌∙◌, some, true,
  Bool-cases, inl, inr, ◌∷◌, length, take, length-take, occurrences, sum_le, update_self, ◌==◌,
  if◌then◌else◌, update, arith,
}
use mathlib.Core.Path.{subst}
use turbokit.Freelist.{State, new_count, push_element, add_element, ◌>>=◌}
use turbokit.Freelist.Chains.{update-Chain}
use turbokit.Freelist.Pools.{Pools, give_away, put_element, put, total, Represents, update-IsLocal}
use turbokit.Freelist.Give.{Chunks-update, total-own, give_away-total, transfer-Represents}

put_element-total :
    (n t e : ℕ) (p : Pools) (x : ℕ)
    → t < n
    → total n (put_element t e p) x ≡ total n p x + (if e == x then 1 else 0)
unfolding put_element
put_element-total n t e p x h = omega (arith, total-own n t x p.own (e ∷ p.own t) h)

module _ (n most : ℕ) (small : most < 2 ^ 64) (t : ℕ) (ht : t < n) where
  give_away-length :
      (r : ℕ) (p : Pools) → new_count r < most → length ((give_away t r p).own t) < most
  unfolding give_away
  give_away-length r p h =
      rw (update_self p.own t (take (new_count r) (p.own t)))
        (omega (arith, length-take (new_count r) (p.own t)))

  push-Represents :
      (s : State) (p : Pools) (e : ℕ)
      → 0 < e
      → total n p e ≡ 0
      → length (p.own t) < most
      → Represents n most s p
      → Represents n most (push_element t e s) (put_element t e p)
  unfolding push_element put_element
  push-Represents s p e pos new room h =
      let local = h.locals t ht in
      let first = (s.locals t).first_element in
      let mine : (e == e) ≡ true = ground arith in
      let absent : (u : ℕ) → u < n → occurrences e (p.own u) ≡ 0 =
        λ u hu. omega (arith, new, sum_le n u (λ i. occurrences e (p.own i)) hu) in
      record {
        locals =
            update-IsLocal (update s.next e first) n most t s.locals p.own
              (record {
                first_element = e;
                element_count = ((s.locals t).element_count + 1) % 2 ^ 64;
              })
              (e ∷ p.own t)
              (λ u hu ne.
                let l = h.locals u hu in
                (
                  update-Chain s.next e first (s.locals u).first_element (p.own u) (absent u hu)
                      l.0,
                  l.1,
                  l.2,
                ))
              (
                (
                  refl,
                  pos,
                  rw mine (update-Chain s.next e first first (p.own t) (absent t ht) local.0),
                ),
                omega (arith, local.1),
                room,
              );
        chunks =
            Chunks-update s.next e first most s.available_elements p.shared (omega (arith, new))
              h.chunks;
        once = λ x. elim (Bool-cases (e == x)) [
          | inl same ↦
              let eq : e ≡ x = ground arith in
              omega (
                arith,
                put_element-total n t e p x ht,
                ap (total n p) eq,
                new,
                same,
                ap {B = ℕ} (λ b. if b then 1 else 0) same,
              )
          | inr other ↦ omega (
            arith,
            put_element-total n t e p x ht,
            h.once x,
            ap {B = ℕ} (λ b. if b then 1 else 0) other,
          )
        ];
      }

  Added : State → Pools → ℕ → Pools → Type 0
  Added s p e q =
      (s' : State) × (add_element t e most s ≡ some s')
      × Represents n most s' q
      × ((x : ℕ) → total n q x ≡ total n p x + (if e == x then 1 else 0))

  add-room :
      (s : State) (p : Pools) (e : ℕ)
      → 0 < e
      → total n p e ≡ 0
      → Represents n most s p
      → length (p.own t) < most
      → Added s p e (put_element t e p)
  unfolding add_element Added
  add-room s p e pos new h room = (
    push_element t e s,
    if_false {b = (s.locals t).element_count == most} _ (
        (let local = h.locals t ht in
          let c : (s.locals t).element_count ≡ length (p.own t) = local.1 in ground arith)),
    push-Represents s p e pos new room h,
    λ x. put_element-total n t e p x ht,
  )

  add-full :
      (s : State) (p : Pools) (e : ℕ)
      → 2 ≤ most
      → 0 < e
      → total n p e ≡ 0
      → Represents n most s p
      → length (p.own t) ≡ most
      → Added s p e (put_element t e (give_away t (most / 8) p))
  unfolding add_element Added
  add-full s p e two pos new h full =
      let (s', eq, h') = transfer-Represents n most s p t (most / 8) ht small (omega arith) h in
      (
        push_element t e s',
        if_true {b = (s.locals t).element_count == most} _ (
              (let local = h.locals t ht in
                let c : (s.locals t).element_count ≡ length (p.own t) = local.1 in ground arith))
            ∙ ap (λ o. o >>= λ s''. some (push_element t e s'')) eq,
        push-Represents s' (give_away t (most / 8) p) e pos
            (give_away-total n t (most / 8) p e ht ∙ new)
            (give_away-length (most / 8) p (omega arith)) h',
        λ x. omega (
          arith,
          put_element-total n t e (give_away t (most / 8) p) x ht,
          give_away-total n t (most / 8) p x ht,
        ),
      )

  -- An element that is new to the pools of `n` threads is added, by a thread of them, as to a stack;
  -- where the thread has the most elements that it may, all but the first eighth of them, and all but
  -- one where that is nothing, go to the shared pool together first. No null pointer is met, and every
  -- element is where it was or in one other place, provided that a thread may have two elements or
  -- more and fewer than `2 ^ 64`.
  pub add_element-put :
      (s : State) (p : Pools) (e : ℕ)
      → 2 ≤ most
      → 0 < e
      → total n p e ≡ 0
      → Represents n most s p
      → (s' : State) × (add_element t e most s ≡ some s')
        × Represents n most s' (put t e most p)
        × ((x : ℕ) → total n (put t e most p) x ≡ total n p x + (if e == x then 1 else 0))
  unfolding put Added
  add_element-put s p e two pos new h = elim (Bool-cases (length (p.own t) == most)) [
    | inl full ↦
        subst (Added s p e) (sym (if_true _ full)) (add-full s p e two pos new h (ground arith))
    | inr room ↦ subst (Added s p e) (sym (if_false _ room)) (
        add-room s p e pos new h (
          (let local = h.locals t ht in let b : length (p.own t) ≤ most = local.2 in ground arith)))
  ]
