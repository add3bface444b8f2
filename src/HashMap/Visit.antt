-- ===== src/HashMap/Visit.antt =====
-- The loop over all entries of a `HashMap`, from `begin` by `operator++` to `end` (include/hash_map.h,
-- in the copy assignment, and include/serialization.h, in `serialize_map`), and the list of the
-- entries as they stand in the two tables.
use turbokit.Base.{
  ℕ, zero, suc, ◌+◌, ◌-◌, ◌<◌, ◌≤◌, ◌≡◌, refl, sym, ap, ◌∙◌, Option, none, some, Option-cases, inl,
  inr, List, [], ◌∷◌, ◌++◌, length, length-append, arith,
}
use turbokit.HashMap.Types.{
  Traits, HashMap, MainEntry, CollisionEntry, Place, null, in_main, in_collision, Iterator,
  iterator, end, entry_at, Layout, padding, deref, deref-entry_at,
}
use turbokit.HashMap.Iterate.{begin, increment}
use turbokit.HashMap.Clear.{begin_at, begin-begin_at, no_collision}
use turbokit.HashMap.Invariant.{count_used, Represents}
use turbokit.HashMap.Counting.{count_used-some, count_used_skip}
use turbokit.HashMap.Step.{
  Gap, InCollision, InMain, at, over, past, increment-InMain, increment-InCollision, Scanned, first,
  nowhere, scan-Scanned,
}

-- The entries in use among the next `rounds` from `i` on.
abbrev pub used_entries : {A B : Type 0} → (A → B) → (ℕ → Option A) → (rounds i : ℕ) → List B
used_entries g f zero i = []
used_entries g f (suc rounds) i =
    let rest = used_entries g f rounds (i + 1) in elim (f i) [ none ↦ rest | some a ↦ g a ∷ rest ]

module _ {K V : Type 0} where
  -- The loop, with the number of rounds as fuel; `none` where it reads what is not there.
  unfoldable pub visit : Layout K → ℕ → HashMap K V → Iterator → Option (List (K × V))
  visit l zero m it = elim it.value_ptr [ null ↦ some [] | _ ↦ none ]
  visit l (suc fuel) m it = elim it.value_ptr [
    | null ↦ some []
    | _ ↦ elim (deref l m it.value_ptr) [
      | none ↦ none
      | some e ↦ elim (increment m it) [
        | none ↦ none
        | some next ↦ elim (visit l fuel m next) [ none ↦ none | some es ↦ some (e ∷ es) ]
      ]
    ]
  ]

  abbrev pub main_pair : MainEntry K V → K × V
  main_pair e = (e.key, e.value)

  abbrev pub collision_pair : CollisionEntry K V → K × V
  collision_pair c = (c.key, c.value)

  -- From an index of a table to its end.
  abbrev pub main_from : HashMap K V → ℕ → List (K × V)
  main_from m i = used_entries main_pair m.main_table (m.bucket_count - i) i

  abbrev pub collision_from : HashMap K V → ℕ → List (K × V)
  collision_from m i = used_entries collision_pair m.collision_table (m.bucket_count - i) i

module _ {A B : Type 0} (g : A → B) (f : ℕ → Option A) where
  used_entries-here :
      (n i : ℕ) (a : A)
      → i < n
      → f i ≡ some a
      → used_entries g f (n - i) i ≡ g a ∷ used_entries g f (n - (i + 1)) (i + 1)
  used_entries-here n i a lt e =
      let k : n - i ≡ suc (n - (i + 1)) = omega arith in rw (k, used_entries, e) refl

  used_entries-skip :
      (n i : ℕ)
      → i < n
      → f i ≡ none
      → used_entries g f (n - i) i ≡ used_entries g f (n - (i + 1)) (i + 1)
  used_entries-skip n i lt e =
      let k : n - i ≡ suc (n - (i + 1)) = omega arith in rw (k, used_entries, e) refl

  used_entries-Gap :
      (n d i j : ℕ)
      → i + d ≡ j
      → j ≤ n
      → Gap f i j
      → used_entries g f (n - i) i ≡ used_entries g f (n - j) j
  used_entries-Gap n zero i j e le gap =
      let same : i ≡ j = omega arith in ap (λ k. used_entries g f (n - k) k) same
  used_entries-Gap n (suc d) i j e le gap =
      used_entries-skip n i (omega arith) (gap i (omega arith) (omega arith))
      ∙ used_entries-Gap n d (i + 1) j (omega arith) le (λ x l u. gap x (omega arith) u)

  used_entries-end : (n : ℕ) → used_entries g f (n - n) n ≡ []
  used_entries-end n = let z : n - n ≡ 0 = omega arith in ap (λ k. used_entries g f k n) z

module _ {K V : Type 0} where
  deref-null : (l : Layout K) (m : HashMap K V) → none ≡ deref l m null
  unfolding deref entry_at
  deref-null l m = refl

  visit-null :
      (l : Layout K) (fuel : ℕ) (m : HashMap K V) (it : Iterator)
      → it.value_ptr ≡ null
      → visit l fuel m it ≡ some []
  unfolding visit
  visit-null l zero m it e = rw (visit, e) refl
  visit-null l (suc fuel) m it e = rw (visit, e) refl

  visit-step :
      (l : Layout K) (fuel : ℕ) (m : HashMap K V) (b c : Option ℕ) (p : Place) (e : K × V)
      (next : Iterator) (es : List (K × V))
      → deref l m p ≡ some e
      → increment m (iterator b c p) ≡ some next
      → visit l fuel m next ≡ some es
      → visit l (suc fuel) m (iterator b c p) ≡ some (e ∷ es)
  unfolding visit
  visit-step l fuel m b c null e next es d i v = let q : none ≡ some e = deref-null l m ∙ d in cc
  visit-step l fuel m b c (in_main j) e next es d i v = rw (visit, d, i, v) refl
  visit-step l fuel m b c (in_collision j) e next es d i v = rw (visit, d, i, v) refl

  collision_from-at :
      (m : HashMap K V) (i j : ℕ) (c : CollisionEntry K V)
      → i ≤ j
      → j < m.bucket_count
      → m.collision_table j ≡ some c
      → Gap m.collision_table i j
      → collision_from m i ≡ collision_pair c ∷ collision_from m (j + 1)
  collision_from-at m i j c lo u q gap =
      used_entries-Gap collision_pair m.collision_table m.bucket_count (j - i) i j (omega arith)
        (omega arith) gap
      ∙ used_entries-here collision_pair m.collision_table m.bucket_count j c u q

  main_from-at :
      (m : HashMap K V) (i j : ℕ) (e : MainEntry K V)
      → i ≤ j
      → j < m.bucket_count
      → m.main_table j ≡ some e
      → Gap m.main_table i j
      → main_from m i ≡ main_pair e ∷ main_from m (j + 1)
  main_from-at m i j e lo u q gap =
      used_entries-Gap main_pair m.main_table m.bucket_count (j - i) i j (omega arith) (omega arith)
        gap
      ∙ used_entries-here main_pair m.main_table m.bucket_count j e u q

  visit-InCollision :
      (l : Layout K) (packed : padding l ≡ 0) (fuel : ℕ) (m : HashMap K V) (b : Option ℕ) (i : ℕ)
      {it : Iterator}
      → i ≤ m.bucket_count
      → InCollision m b i it
      → length (collision_from m i) ≤ fuel
      → visit l fuel m it ≡ some (collision_from m i)
  unfolding entry_at
  visit-InCollision l packed fuel m b i le (past j gap) few =
      visit-null l fuel m (iterator b (some j) null) refl
      ∙ ap (λ l. some l)
          (sym (
            used_entries-Gap collision_pair m.collision_table m.bucket_count (m.bucket_count - i) i
              m.bucket_count (omega arith) (omega arith) gap
            ∙ used_entries-end collision_pair m.collision_table m.bucket_count))
  visit-InCollision l packed zero m b i le (at j c lo u q gap) few =
      let list = collision_from-at m i j c lo u q gap in absurd (omega (arith, ap length list))
  visit-InCollision l packed (suc fuel) m b i le (at j c lo u q gap) few =
      let list = collision_from-at m i j c lo u q gap in
      let (next, ran, x) = increment-InCollision m b j (in_collision j) u in
      visit-step l fuel m b (some j) (in_collision j) (collision_pair c) next
        (collision_from m (j + 1)) (deref-entry_at l m _ packed ∙ rw (entry_at, q) refl) ran
        (visit-InCollision l packed fuel m b (j + 1) (omega arith) x
          (omega (arith, ap length list)))
      ∙ ap (λ l. some l) (sym list)

  -- What is left from an entry of the main table on.
  abbrev rest_from : HashMap K V → ℕ → List (K × V)
  rest_from m i = main_from m i ++ collision_from m 0

  visit-InMain :
      (l : Layout K) (packed : padding l ≡ 0) (fuel : ℕ) (m : HashMap K V) (i : ℕ) {it : Iterator}
      → i ≤ m.bucket_count
      → InMain m i it
      → length (rest_from m i) ≤ fuel
      → visit l fuel m it ≡ some (rest_from m i)
  unfolding entry_at
  visit-InMain l packed fuel m i {it} le (over gap x) few =
      let none_left : main_from m i ≡ [] =
        used_entries-Gap main_pair m.main_table m.bucket_count (m.bucket_count - i) i m.bucket_count
          (omega arith) (omega arith) gap
        ∙ used_entries-end main_pair m.main_table m.bucket_count in
      visit-InCollision l packed fuel m none 0 (omega arith) x
        (omega (arith, length-append (main_from m i) (collision_from m 0), ap length none_left))
      ∙ ap (λ l. some (l ++ collision_from m 0)) (sym none_left)
  visit-InMain l packed zero m i le (at j e lo u q gap) few =
      let list = main_from-at m i j e lo u q gap in
      absurd (omega (arith, length-append (main_from m i) (collision_from m 0), ap length list))
  visit-InMain l packed (suc fuel) m i le (at j e lo u q gap) few =
      let list = main_from-at m i j e lo u q gap in
      let (next, ran, x) = increment-InMain m j (in_main j) u in
      visit-step l fuel m (some j) none (in_main j) (main_pair e) next (rest_from m (j + 1))
        (deref-entry_at l m _ packed ∙ rw (entry_at, q) refl) ran
        (visit-InMain l packed fuel m (j + 1) (omega arith) x (
          omega (
            arith,
            length-append (main_from m i) (collision_from m 0),
            length-append (main_from m (j + 1)) (collision_from m 0),
            ap length list,
          )))
      ∙ ap (λ l. some (l ++ collision_from m 0)) (sym list)

  -- The entries of the two tables, as the iteration meets them.
  abbrev pub entries : HashMap K V → List (K × V)
  entries m = rest_from m 0

  -- There are as many as the tables have in use.
  length-used_entries :
      {A : Type 0} (g : A → K × V) (f : ℕ → Option A) (n i : ℕ)
      → length (used_entries g f n i) + count_used i f ≡ count_used (i + n) f
  length-used_entries g f zero i =
      let z : i + 0 ≡ i = omega arith in omega (arith, ap (λ k. count_used k f) z)
  length-used_entries g f (suc n) i =
      let next : i + 1 + n ≡ i + suc n = omega arith in
      let rest = length-used_entries g f n (i + 1) ∙ ap (λ k. count_used k f) next in
      elim (Option-cases (f i)) [
        | inl e ↦ rw (used_entries, e) (omega (arith, rest, count_used_skip i f e))
        | inr (a, e) ↦ rw (used_entries, e) (omega (arith, rest, count_used-some i f a e))
      ]

module _ {K V : Type 0} ⦃t : Traits K⦄ where
  pub length-entries :
      (m : HashMap K V) (f : K → Option V) → Represents m f → length (entries m) ≡ m.element_count
  unfolding count_used
  length-entries m f r =
      let all : m.bucket_count - 0 ≡ m.bucket_count = omega arith in
      let sum : 0 + m.bucket_count ≡ m.bucket_count = omega arith in
      let mains = length-used_entries main_pair m.main_table m.bucket_count 0 in
      let others = length-used_entries collision_pair m.collision_table m.bucket_count 0 in
      omega (
        arith,
        length-append (main_from m 0) (collision_from m 0),
        ap (λ k. length (used_entries main_pair m.main_table k 0)) all,
        ap (λ k. length (used_entries collision_pair m.collision_table k 0)) all,
        ap (λ k. count_used k m.main_table) sum,
        ap (λ k. count_used k m.collision_table) sum,
        mains,
        others,
        r.table.counted,
      )

  visit-tables :
      (l : Layout K) (packed : padding l ≡ 0) (m : HashMap K V) (f : K → Option V)
      → Represents m f
      → {o o' : Option ℕ} → Scanned m.main_table 0 m.bucket_count o
      → Scanned m.collision_table 0 m.bucket_count o'
      → visit l m.element_count m (begin_at o o') ≡ some (entries m)
  visit-tables l packed m f r (first b e h gap) found =
      visit-InMain l packed m.element_count m 0 (omega arith)
        (at b e (omega arith) (r.table.at_home b e h).0 h gap) (omega (arith, length-entries m f r))
  visit-tables l packed m f r (nowhere gap) (first x a h g) = let e = no_collision m f r gap x in cc
  visit-tables l packed m f r (nowhere gap) (nowhere g) =
      visit-null l m.element_count m end refl
      ∙ ap (λ l. some l)
          (sym (
            ap (λ l. l ++ collision_from m 0)
              (used_entries-Gap main_pair m.main_table m.bucket_count (m.bucket_count - 0) 0
                  m.bucket_count (omega arith) (omega arith) gap
                ∙ used_entries-end main_pair m.main_table m.bucket_count)
            ∙ used_entries-Gap collision_pair m.collision_table m.bucket_count (m.bucket_count - 0)
                0 m.bucket_count (omega arith) (omega arith) g
            ∙ used_entries-end collision_pair m.collision_table m.bucket_count))

  pub visit-entries :
      (l : Layout K) (m : HashMap K V) (f : K → Option V)
      → padding l ≡ 0
      → Represents m f
      → visit l m.element_count m (begin m) ≡ some (entries m)
  visit-entries l m f packed r =
      let mains = scan-Scanned m.main_table m.bucket_count 0 m.bucket_count (omega arith) in
      let others = scan-Scanned m.collision_table m.bucket_count 0 m.bucket_count (omega arith) in
      rw (begin-begin_at m r.table.allocated) (visit-tables l packed m f r mains others)
