-- ===== src/HashMap/Entries.antt =====
-- The entries that an iteration over a `HashMap` meets (include/hash_map.h), against the map that the
-- tables stand for.
use turbokit.Base.{
  ◌==◌, ℕ, zero, suc, ◌+◌, ◌-◌, ◌<◌, ◌≤◌, ◌≡◌, ◌≢◌, ◌⊎◌, refl, sym, ap, ◌∙◌, Bool-cases, Option,
  none, some, Option-cases, inl, inr, List, [], ◌∷◌, ◌++◌, length, All, All-append, append-All,
  if◌then◌else◌, if_true, if_false, arith,
}
use mathlib.Core.Bool.{false≢true}
use mathlib.Core.Path.{subst}
use turbokit.HashMap.Types.{Traits, HashMap, Layout, padding}
use turbokit.HashMap.Iterate.{begin}
use turbokit.HashMap.Invariant.{home, Absent, Represents}
use turbokit.HashMap.Visit.{
  used_entries, visit, main_pair, collision_pair, main_from, collision_from, entries,
  length-entries, visit-entries,
}

module _ {A B : Type 0} (P : B → Type 0) (g : A → B) (f : ℕ → Option A) where
  All-used_entries :
      (n i : ℕ) → ((j : ℕ) (a : A) → i ≤ j → f j ≡ some a → P (g a)) → All P (used_entries g f n i)
  All-used_entries zero i h = tt
  All-used_entries (suc n) i h = elim (Option-cases (f i)) [
    | inl e ↦ rw (used_entries, e) (All-used_entries n (i + 1) (λ j a l q. h j a (omega arith) q))
    | inr (a, e) ↦
        rw (used_entries, e)
          (h i a (omega arith) e, All-used_entries n (i + 1) (λ j x l q. h j x (omega arith) q))
  ]

  used_entries-none :
      (n i : ℕ) → f i ≡ none → used_entries g f (suc n) i ≡ used_entries g f n (i + 1)
  used_entries-none n i e = rw (used_entries, e) refl

  used_entries-some :
      (n i : ℕ) (a : A)
      → f i ≡ some a
      → used_entries g f (suc n) i ≡ g a ∷ used_entries g f n (i + 1)
  used_entries-some n i a e = rw (used_entries, e) refl

  used_entries-All :
      (n i : ℕ)
      → All P (used_entries g f n i)
      → (j : ℕ) (a : A) → i ≤ j
      → j < i + n
      → f j ≡ some a
      → P (g a)
  used_entries-All zero i h j a l u q = absurd (omega arith)
  used_entries-All (suc n) i h j a l u q = elim (Option-cases (f i)) [
    | inl e ↦ elim (Bool-cases (j == i)) [
      | inl s ↦ let same : j ≡ i = ground arith in let z : f j ≡ none = rw same e in cc
      | inr s ↦
          used_entries-All n (i + 1) (subst (All P) (used_entries-none n i e) h) j a (ground arith)
            (omega arith) q
    ]
    | inr (b, e) ↦
        let (first, rest) = subst (All P) (used_entries-some n i b e) h in
        elim (Bool-cases (j == i)) [
          | inl s ↦
              let same : j ≡ i = ground arith in
              let both : some b ≡ some a = sym e ∙ ap f (sym same) ∙ q in
              let equal : b ≡ a = cc in subst (λ x. P (g x)) equal first
          | inr s ↦ used_entries-All n (i + 1) rest j a (ground arith) (omega arith) q
        ]
  ]

module _ {K V : Type 0} where
  -- No key stands twice.
  abbrev pub Distinct : List (K × V) → Type 0
  Distinct [] = Unit
  Distinct (e ∷ es) = All (λ d. d.0 ≢ e.0) es × Distinct es

  Distinct-append :
      (xs ys : List (K × V))
      → Distinct xs
      → Distinct ys
      → All (λ x. All (λ y. y.0 ≢ x.0) ys) xs
      → Distinct (xs ++ ys)
  Distinct-append [] ys dx dy h = dy
  Distinct-append (x ∷ xs) ys dx dy h =
      (All-append (λ d. d.0 ≢ x.0) xs ys dx.0 h.0, Distinct-append xs ys dx.1 dy h.1)

  Distinct-used_entries :
      {A : Type 0} (g : A → K × V) (f : ℕ → Option A)
      → ((i j : ℕ) (a b : A) → f i ≡ some a → f j ≡ some b → (g a).0 ≡ (g b).0 → i ≡ j)
      → (n i : ℕ) → Distinct (used_entries g f n i)
  Distinct-used_entries g f same zero i = tt
  Distinct-used_entries g f same (suc n) i = elim (Option-cases (f i)) [
    | inl e ↦ rw (used_entries, e) (Distinct-used_entries g f same n (i + 1))
    | inr (a, e) ↦
        rw (used_entries, e)
          (
            All-used_entries (λ d. d.0 ≢ (g a).0) g f n (i + 1)
                (λ j b l q k. absurd (omega (arith, same j i b a q e k))),
            Distinct-used_entries g f same n (i + 1),
          )
  ]

module _ {K V : Type 0} ⦃t : Traits K⦄ where
  abbrev pub lookup : List (K × V) → K → Option V
  lookup [] k = none
  lookup (e ∷ es) k = if t.equal e.0 k then some e.1 else lookup es k

  lookup-none : (es : List (K × V)) (k : K) → All (λ e. e.0 ≢ k) es → lookup es k ≡ none
  lookup-none [] k h = refl
  lookup-none (e ∷ es) k h = elim (Bool-cases (t.equal e.0 k)) [
    | inl s ↦ absurd (h.0 ((t.equal_iff e.0 k).0 s))
    | inr s ↦ if_false _ s ∙ lookup-none es k h.1
  ]

  lookup_sound :
      (f : K → Option V) (es : List (K × V)) (k : K)
      → All (λ e. f e.0 ≡ some e.1) es
      → (lookup es k ≡ f k) ⊎ All (λ e. e.0 ≢ k) es
  lookup_sound f [] k h = inr tt
  lookup_sound f (e ∷ es) k h = elim (Bool-cases (t.equal e.0 k)) [
    | inl s ↦ inl (if_true _ s ∙ sym h.0 ∙ ap f ((t.equal_iff e.0 k).0 s))
    | inr s ↦ elim (lookup_sound f es k h.1) [
      | inl found ↦ inl (if_false _ s ∙ found)
      | inr missing ↦ inr ((λ q. false≢true (sym s ∙ (t.equal_iff e.0 k).1 q)), missing)
    ]
  ]

  pub entries_sound :
      (m : HashMap K V) (f : K → Option V)
      → Represents m f
      → All (λ e. f e.0 ≡ some e.1) (entries m)
  entries_sound m f r =
      All-append (λ e. f e.0 ≡ some e.1) (main_from m 0) (collision_from m 0)
        (All-used_entries (λ e. f e.0 ≡ some e.1) main_pair m.main_table (m.bucket_count - 0) 0
          (λ j e l q. r.main j e q))
        (All-used_entries (λ e. f e.0 ≡ some e.1) collision_pair m.collision_table
          (m.bucket_count - 0) 0 (λ j c l q. r.collision j c q))

  entries-Absent :
      (m : HashMap K V) (f : K → Option V) (k : K)
      → Represents m f
      → All (λ e. e.0 ≢ k) (entries m)
      → Absent m k
  entries-Absent m f k r h =
      let (mains, others) = append-All (λ e. e.0 ≢ k) (main_from m 0) (collision_from m 0) h in
      record {
        main = λ b e q.
            let lt = (r.table.at_home b e q).0 in
            used_entries-All (λ d. d.0 ≢ k) main_pair m.main_table (m.bucket_count - 0) 0 mains b e
              (omega arith) (omega arith) q;
        collision = λ i c q.
            let lt = (r.table.chained i c q).0 in
            used_entries-All (λ d. d.0 ≢ k) collision_pair m.collision_table (m.bucket_count - 0) 0
              others i c (omega arith) (omega arith) q;
      }

  pub entries-lookup :
      (m : HashMap K V) (f : K → Option V) (k : K) → Represents m f → lookup (entries m) k ≡ f k
  entries-lookup m f k r = elim (lookup_sound f (entries m) k (entries_sound m f r)) [
    | inl found ↦ found
    | inr missing ↦
        lookup-none (entries m) k missing ∙ sym (r.absent k (entries-Absent m f k r missing))
  ]

  pub entries-Distinct :
      (m : HashMap K V) (f : K → Option V) → Represents m f → Distinct (entries m)
  entries-Distinct m f r =
      Distinct-append (main_from m 0) (collision_from m 0)
        (Distinct-used_entries main_pair m.main_table
          (λ i j a b p q k.
            sym (r.table.at_home i a p).1 ∙ ap (home m) k ∙ (r.table.at_home j b q).1)
          (m.bucket_count - 0) 0)
        (Distinct-used_entries collision_pair m.collision_table
          (λ i j a b p q k. r.table.unique i j a b p q k) (m.bucket_count - 0) 0)
        (All-used_entries (λ x. All (λ y. y.0 ≢ x.0) (collision_from m 0)) main_pair m.main_table
          (m.bucket_count - 0) 0
          (λ b e l q.
            All-used_entries (λ y. y.0 ≢ e.key) collision_pair m.collision_table
              (m.bucket_count - 0) 0 (λ i c l' q' k. r.table.apart b i e c q q' (sym k))))

  -- Where no padding comes between a key and its value, and on tables that hold a map, the loop
  -- from `begin` to `end` ends after as many rounds as there are elements, reads no entry that is
  -- not there, and meets each entry of the map once and nothing else.
  pub visit-Lists :
      (l : Layout K) (m : HashMap K V) (f : K → Option V)
      → padding l ≡ 0
      → Represents m f
      → (es : List (K × V)) × (visit l m.element_count m (begin m) ≡ some es)
        × (length es ≡ m.element_count)
        × Distinct es
        × ((k : K) → lookup es k ≡ f k)
  visit-Lists l m f packed r = (
    entries m,
    visit-entries l m f packed r,
    length-entries m f r,
    entries-Distinct m f r,
    λ k. entries-lookup m f k r,
  )
