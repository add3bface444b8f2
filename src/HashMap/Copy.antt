-- ===== src/HashMap/Copy.antt =====
-- The copy assignment of a `HashMap` (include/hash_map.h) from another object: the map is cleared, and
-- every entry of the other one is inserted.
use turbokit.Base.{
  ℕ, zero, suc, ◌+◌, ◌*◌, ◌^◌, ◌≤◌, ◌≡◌, refl, ap, ◌∙◌, Option, none, some, Option-cases, inl, inr,
  List, [], ◌∷◌, fun_ext, arith,
}
use turbokit.HashMap.Types.{
  Traits, HashMap, Place, null, in_main, in_collision, Iterator, iterator, Layout, padding, deref,
}
use turbokit.HashMap.Insert.{Result, ok, fault, ◌>>=◌, Inserter, try_insert}
use turbokit.HashMap.Iterate.{begin, increment, clear}
use turbokit.HashMap.Invariant.{Represents}
use turbokit.HashMap.Run.{Suffices}
use turbokit.HashMap.TryInsert.{Stands}
use turbokit.HashMap.Clear.{Cleared, clear-Cleared}
use turbokit.HashMap.Visit.{visit}
use turbokit.HashMap.Series.{insert_all, insert_all-lookup}
use turbokit.HashMap.Entries.{visit-Lists}

module _ {K V : Type 0} where
  -- The loop over the other map, with the number of rounds as fuel.
  unfoldable pub copy_loop :
      Layout K → Inserter K V → ℕ → HashMap K V → Iterator → HashMap K V → Result (HashMap K V)
  copy_loop l insert zero other it m = elim it.value_ptr [ null ↦ ok m | _ ↦ fault ]
  copy_loop l insert (suc n) other it m = elim it.value_ptr [
    | null ↦ ok m
    | _ ↦ elim (deref l other it.value_ptr) [
      | none ↦ fault
      | some e ↦ insert m e.0 e.1 >>= λ r. elim (increment other it) [
        | none ↦ fault
        | some next ↦ copy_loop l insert n other next r.0
      ]
    ]
  ]

  abbrev pub copy_assign :
      Layout K → Inserter K V → HashMap K V → HashMap K V → Result (HashMap K V)
  copy_assign l insert other m = elim (clear m) [
    | none ↦ fault
    | some m1 ↦ copy_loop l insert other.element_count other (begin other) m1
  ]

module _ {K V : Type 0} (l : Layout K) (insert : Inserter K V) (other : HashMap K V) where
  -- What the loop does with the iterations that the visit makes.
  abbrev Copies : ℕ → Iterator → Type 0
  Copies n it =
      (es : List (K × V)) (m : HashMap K V)
      → visit l n other it ≡ some es
      → copy_loop l insert n other it m ≡ insert_all insert es m

  round :
      (n : ℕ)
      → ((it : Iterator) → Copies n it)
      → (d : Option (K × V)) (i : Option Iterator) (es : List (K × V)) (m : HashMap K V)
      → (elim d [
        | none ↦ none
        | some e ↦ elim i [
          | none ↦ none
          | some next ↦ elim (visit l n other next) [ none ↦ none | some es ↦ some (e ∷ es) ]
        ]
      ])
        ≡ some es
      → (elim d [
        | none ↦ fault
        | some e ↦ insert m e.0 e.1 >>= λ r. elim i [
          | none ↦ fault
          | some next ↦ copy_loop l insert n other next r.0
        ]
      ])
        ≡ insert_all insert es m
  round n ih none i es m h = cc
  round n ih (some e) none es m h = cc
  round n ih (some e) (some next) es m h = elim (Option-cases (visit l n other next)) [
    | inl q ↦ let z : none ≡ some es = rw q at h in cc
    | inr (rest, q) ↦
        let z : some (e ∷ rest) ≡ some es = rw q at h in
        let same : e ∷ rest ≡ es = cc in
        ap (λ f. insert m e.0 e.1 >>= f) (fun_ext (λ r. ih next rest r.0 q))
        ∙ ap (λ l. insert_all insert l m) same
  ]

  copy-null : (n : ℕ) (it : Iterator) → it.value_ptr ≡ null → Copies n it
  unfolding visit copy_loop
  copy-null zero it e es m h =
      let z : some [] ≡ some es = rw (visit, e) at h in
      let same : [] ≡ es = cc in rw (copy_loop, e) (ap (λ l. insert_all insert l m) same)
  copy-null (suc n) it e es m h =
      let z : some [] ≡ some es = rw (visit, e) at h in
      let same : [] ≡ es = cc in rw (copy_loop, e) (ap (λ l. insert_all insert l m) same)

  copy_loop-at : (n : ℕ) (b c : Option ℕ) (p : Place) → Copies n (iterator b c p)
  unfolding visit copy_loop
  copy_loop-at n b c null es m h = copy-null n (iterator b c null) refl es m h
  copy_loop-at zero b c (in_main j) es m h = cc
  copy_loop-at zero b c (in_collision j) es m h = cc
  copy_loop-at (suc n) b c (in_main j) es m h =
      round n (λ it. copy_loop-at n it.bucket_index it.collision_index it.value_ptr)
        (deref l other (in_main j)) (increment other (iterator b c (in_main j))) es m h
  copy_loop-at (suc n) b c (in_collision j) es m h =
      round n (λ it. copy_loop-at n it.bucket_index it.collision_index it.value_ptr)
        (deref l other (in_collision j)) (increment other (iterator b c (in_collision j))) es m h

  copy_loop-insert_all : (n : ℕ) (it : Iterator) → Copies n it
  copy_loop-insert_all n it = copy_loop-at n it.bucket_index it.collision_index it.value_ptr

module _ {K V : Type 0} ⦃t : Traits K⦄ where
  -- Where no padding comes between a key and its value, the copy assignment from another map ends,
  -- on a map without tables and on any tables, with as much fuel as twice the logarithm of a bucket
  -- count that suffices for the elements of the other one; no step reads an entry that is not
  -- there, and the map then holds what the other one holds.
  pub copy_assign-Stands :
      (l : Layout K) (high fuel : ℕ) (other m : HashMap K V) (f g : K → Option V)
      → padding l ≡ 0
      → Suffices t.entry_size high other.element_count
      → Represents other g
      → Stands m f
      → m.bucket_count ≤ 2 ^ high
      → 16 ≤ 2 ^ high
      → 2 * high + 2 ≤ fuel
      → (m' : HashMap K V) × (copy_assign l (try_insert fuel) other m ≡ ok m') × Stands m' g
  copy_assign-Stands l high fuel other m f g packed s r st h sixteen hf =
      let (m1, cleared, done) = clear-Cleared m f st in
      let (es, met, many, apart, finds) = visit-Lists l other g packed r in
      let clean : Cleared m1.bucket_count m1 = record {
        stands = done.stands;
        count = done.count;
        buckets = refl;
      } in
      let (m', ran, good) =
        insert_all-lookup high fuel m1 es g (rw many s) clean (omega (arith, done.buckets)) sixteen
          hf finds in
      (
        m',
        rw (copy_assign, cleared)
            (copy_loop-insert_all l (try_insert fuel) other other.element_count (begin other) es m1
                met
              ∙ ran),
        good,
      )
