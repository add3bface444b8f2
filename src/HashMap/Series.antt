-- ===== src/HashMap/Series.antt =====
-- Calls of `try_insert` (include/hash_map.h) after one another, into a map without an element.
use turbokit.Base.{
  ℕ, zero, suc, ◌+◌, ◌*◌, ◌^◌, ◌≤◌, ◌≡◌, refl, sym, ap, ◌∙◌, Bool-cases, Option, none, some,
  Option-cases, inl, inr, List, [], ◌∷◌, length, fun_ext, arith,
}
use mathlib.Core.Path.{subst}
use turbokit.HashMap.Types.{Traits, HashMap, new}
use turbokit.HashMap.Insert.{Result, ok, ◌>>=◌, Inserter, start, run, try_insert, fresh}
use turbokit.HashMap.Invariant.{Represents, chain_of}
use turbokit.HashMap.Place.{assign}
use turbokit.HashMap.Rehash.{Good, Works, insert_new, fresh-Good}
use turbokit.HashMap.Run.{Suffices}
use turbokit.HashMap.Start.{Start-step, levels}
use turbokit.HashMap.TryInsert.{Stands, empty, tables, reserve-new}
use turbokit.HashMap.Clear.{Cleared}
use turbokit.HashMap.Reserve.{log-le}
use turbokit.HashMap.Entries.{lookup}

abbrev or_else {ℓ} : {A : Type ℓ} → Option A → Option A → Option A
or_else none o = o
or_else (some v) o = some v

or_else-none {ℓ} : {A : Type ℓ} (o : Option A) → or_else o none ≡ o
or_else-none none = refl
or_else-none (some v) = refl

module _ {K V : Type 0} where
  -- One insertion after another.
  abbrev pub insert_all : Inserter K V → List (K × V) → HashMap K V → Result (HashMap K V)
  insert_all insert [] m = ok m
  insert_all insert (e ∷ es) m = insert m e.0 e.1 >>= λ r. insert_all insert es r.0

module _ {K V : Type 0} ⦃t : Traits K⦄ where
  -- The map after one insertion after another.
  abbrev adds : List (K × V) → (K → Option V) → K → Option V
  adds [] g = g
  adds (e ∷ es) g = adds es (insert_new g e.0 e.1)

  insert_new-or_else :
      (g : K → Option V) (e : K × V) (es : List (K × V)) (k : K)
      → or_else (insert_new g e.0 e.1 k) (lookup es k) ≡ or_else (g k) (lookup (e ∷ es) k)
  insert_new-or_else g e es k = elim (Bool-cases (t.equal e.0 k)) [
    | inl s ↦
        let same : e.0 ≡ k = (t.equal_iff e.0 k).0 s in
        let read : g e.0 ≡ g k = ap g same in
        elim (Option-cases (g k)) [
          | inl q ↦
              let q' : g e.0 ≡ none = read ∙ q in rw (q, insert_new, q', lookup, s, assign) refl
          | inr (v, q) ↦ let q' : g e.0 ≡ some v = read ∙ q in rw (q, insert_new, q') (rw q refl)
        ]
    | inr s ↦ elim (Option-cases (g e.0)) [
      | inl q ↦ rw (insert_new, q, lookup, s, assign) refl
      | inr (v, q) ↦ rw (insert_new, q, lookup, s) refl
    ]
  ]

  adds-lookup :
      (es : List (K × V)) (g : K → Option V) (k : K) → adds es g k ≡ or_else (g k) (lookup es k)
  adds-lookup [] g k = sym (or_else-none (g k))
  adds-lookup (e ∷ es) g k = adds-lookup es (insert_new g e.0 e.1) k ∙ insert_new-or_else g e es k

  insert_all-Good :
      (low high limit : ℕ) (insert : Inserter K V)
      → Works low high limit insert
      → (es : List (K × V)) (m : HashMap K V) (g : K → Option V) → Good low high m g
      → m.element_count + length es ≤ limit
      → (m' : HashMap K V) × (insert_all insert es m ≡ ok m') × Good low high m' (adds es g)
  insert_all-Good low high limit insert works [] m g x room = (m, refl, x)
  insert_all-Good low high limit insert works (e ∷ es) m g x room =
      let (r, ran, i) = works m g e.0 e.1 x (omega arith) in
      let (m', rest, good) =
        insert_all-Good low high limit insert works es r.0 (insert_new g e.0 e.1) i.good
          (omega (arith, i.grown)) in
      (m', rw ran rest, good)

  -- Tables without an element, as a place to insert into.
  none-Good :
      (high : ℕ) (m : HashMap K V)
      → Represents m (λ k. none)
      → m.bucket_count ≤ 2 ^ high
      → Good 0 high m (λ k. none)
  none-Good high m r h =
      let (log, size) = r.table.power in
      record {
        represents = r;
        dense = λ b d lt few. elim (Option-cases (m.main_table b)) [
          | inl e ↦ absurd (omega (arith, ap chain_of e))
          | inr (e, q) ↦ let z = r.main b e q in cc
        ];
        log = log;
        size = size;
        at_least = omega arith;
        at_most = log-le log high (omega (arith, size));
      }

  -- The first insertion makes the tables.
  run-new :
      (fuel : ℕ) (k : K) (v : V)
      → run (suc fuel) start new k v ≡ run (suc fuel) start (fresh 16) k v
  unfolding run
  run-new fuel k v = rw (reserve-new (run fuel start)) refl

  insert_all-new :
      (fuel : ℕ) (e : K × V) (es : List (K × V))
      → insert_all (run (suc fuel) start) (e ∷ es) new
        ≡ insert_all (run (suc fuel) start) (e ∷ es) (fresh 16)
  insert_all-new fuel e es =
      ap (λ x. x >>= λ r. insert_all (run (suc fuel) start) es r.0) (run-new fuel e.0 e.1)

  insert_all-Stands :
      (high fuel : ℕ) (m : HashMap K V) (g : K → Option V) (es : List (K × V))
      (s : Suffices t.entry_size high (length es))
      → Stands m g
      → g ≡ (λ k. none)
      → m.element_count ≡ 0
      → m.bucket_count ≤ 2 ^ high
      → 16 ≤ 2 ^ high
      → 2 * high + 2 ≤ fuel
      → (m' : HashMap K V) × (insert_all (run fuel start) es m ≡ ok m')
        × Stands m' (adds es (λ k. none))
  insert_all-Stands high zero m g es s st n z h sixteen hf = absurd (omega arith)
  insert_all-Stands high (suc fuel) m g es s (tables r) n z h sixteen hf =
      let (more, ag) = levels high (length es) s high in
      let works =
        Start-step high (length es) s high more ag (suc fuel) 0 (omega arith) (omega arith) in
      let (m', ran, good) =
        insert_all-Good 0 high (length es) (run (suc fuel) start) works es m (λ k. none)
          (none-Good high m (subst (Represents m) n r) h) (omega arith) in
      (m', ran, tables good.represents)
  insert_all-Stands high (suc fuel) m g [] s empty n z h sixteen hf = (new, refl, empty)
  insert_all-Stands high (suc fuel) m g (e ∷ es) s empty n z h sixteen hf =
      let four : 4 ≤ high = log-le 4 high (omega arith) in
      let (more, ag) = levels high (length (e ∷ es)) s high in
      let works =
        Start-step high (length (e ∷ es)) s high more ag (suc fuel) 4 (omega arith) (omega arith) in
      let (m', ran, good) =
        insert_all-Good 4 high (length (e ∷ es)) (run (suc fuel) start) works (e ∷ es) (fresh 16)
          (λ k. none) (fresh-Good 4 high 4 (omega arith) four) (omega arith) in
      (m', insert_all-new fuel e es ∙ ran, tables good.represents)

  -- The insertions of entries into a map without an element end, and it holds them then.
  pub insert_all-lookup :
      (high fuel : ℕ) (m : HashMap K V) (es : List (K × V)) (g : K → Option V)
      → Suffices t.entry_size high (length es)
      → Cleared m.bucket_count m
      → m.bucket_count ≤ 2 ^ high
      → 16 ≤ 2 ^ high
      → 2 * high + 2 ≤ fuel
      → ((k : K) → lookup es k ≡ g k)
      → (m' : HashMap K V) × (insert_all (try_insert fuel) es m ≡ ok m') × Stands m' g
  unfolding try_insert
  insert_all-lookup high fuel m es g s clean h sixteen hf finds =
      let (m', ran, good) =
        insert_all-Stands high fuel m (λ k. none) es s clean.stands refl clean.count h sixteen hf in
      let same : adds es (λ k. none) ≡ g = fun_ext (λ k. adds-lookup es (λ k. none) k ∙ finds k) in
      (m', ran, subst (λ x. Stands m' x) same good)
