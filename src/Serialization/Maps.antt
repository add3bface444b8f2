-- ===== src/Serialization/Maps.antt =====
-- `serialize_map` of include/serialization.h on a `HashMap` of include/hash_map.h.
use turbokit.Base.{
  All, ℕ, ◌^◌, ◌≡◌, ◌≢◌, ◌<◌, refl, sym, ap, ◌∙◌, true, false, Bool-cases, Option, none, some, List,
  [], ◌∷◌, ◌++◌, length, inl, inr,
}
use mathlib.Core.Path.{subst}
use turbokit.HashMap.Types.{Traits, HashMap, Layout, padding}
use turbokit.HashMap.Iterate.{begin}
use turbokit.HashMap.Invariant.{Represents}
use turbokit.HashMap.Visit.{visit, entries, length-entries, visit-entries}
use turbokit.HashMap.Entries.{lookup, Distinct, entries_sound, entries-lookup, entries-Distinct}
use turbokit.Serialization.Schema.{Schema, dictionary, Value, same}
use turbokit.Serialization.Bytes.{size_of_size}
use turbokit.Serialization.Writer.{
  Operation, SerializeContext, Writing, ◌>=>◌, write_trivial, write_each, serialize,
}
use turbokit.Serialization.Format.{encode}
use turbokit.Serialization.Reader.{ok, view, contains, deserialize}
use turbokit.Serialization.Valid.{IsValid, Fresh}
use turbokit.Serialization.RoundTrip.{deserialize-encode}

-- The loop over the entries of the map, which writes each; `none` is a read of what is not there, too.
unfoldable pub write_entries :
    Operation → (k s : Schema) → Option (List (Value k × Value s)) → Writing
write_entries op k s none c = none
write_entries op k s (some es) c = write_each (λ e. serialize op k e.0 >=> serialize op s e.1) es c

unfoldable pub serialize_map :
    Operation → (k s : Schema) → Layout (Value k) → HashMap (Value k) (Value s) → Writing
serialize_map op k s l m =
    write_trivial op size_of_size m.element_count
    >=> write_entries op k s (visit l m.element_count m (begin m))

module _ (k : Schema) {V : Type 0} where
  contains-append :
      (x : Value k) (seen : List (Value k × V)) (e : Value k × V)
      → contains (same k) x seen ≡ false
      → same k e.0 x ≡ false
      → contains (same k) x (seen ++ (e ∷ [])) ≡ false
  contains-append x [] e h q = rw q refl
  contains-append x (d ∷ seen) e h q = elim (Bool-cases (same k d.0 x)) [
    | inl s ↦ let z : true ≡ false = rw s at h in cc
    | inr s ↦
        let z : contains (same k) x seen ≡ false = rw s at h in rw s (contains-append x seen e z q)
  ]

  none_seen : (es : List (Value k × V)) → All (λ d. contains {V = V} (same k) d.0 [] ≡ false) es
  none_seen [] = tt
  none_seen (e ∷ es) = (refl, none_seen es)

  -- Where `==` is equality, entries with different keys may be read one after another.
  module _ (sound : (a b : Value k) → same k a b ≡ true → a ≡ b) where
    later :
        (seen es : List (Value k × V)) (e : Value k × V)
        → All (λ d. d.0 ≢ e.0) es
        → All (λ d. contains (same k) d.0 seen ≡ false) es
        → All (λ d. contains (same k) d.0 (seen ++ (e ∷ [])) ≡ false) es
    later seen [] e a b = tt
    later seen (d ∷ es) e a b = (
      contains-append d.0 seen e b.0 (elim (Bool-cases (same k e.0 d.0)) [
        | inl s ↦ absurd (a.0 (sym (sound e.0 d.0 s)))
        | inr s ↦ s
      ]),
      later seen es e a.1 b.1,
    )

    Distinct-Fresh :
        (seen es : List (Value k × V))
        → Distinct es
        → All (λ d. contains (same k) d.0 seen ≡ false) es
        → Fresh k seen es
    Distinct-Fresh seen [] d a = tt
    Distinct-Fresh seen (e ∷ es) d a =
        (a.0, Distinct-Fresh (seen ++ (e ∷ [])) es d.1 (later seen es e d.0 a.1))

All-map :
    {A : Type 0} {P Q : A → Type 0} → ((a : A) → P a → Q a) → (xs : List A) → All P xs → All Q xs
All-map h [] a = tt
All-map h (x ∷ xs) a = (h x a.0, All-map h xs a.1)

module _ (k s : Schema) ⦃t : Traits (Value k)⦄ (l : Layout (Value k)) (packed : padding l ≡ 0)
    (m : HashMap (Value k) (Value s)) (f : Value k → Option (Value s)) (r : Represents m f) where
  serialize_map-entries :
      (op : Operation) (c : SerializeContext)
      → serialize_map op k s l m c ≡ serialize op (dictionary k s) (entries m) c
  unfolding serialize_map write_entries serialize
  serialize_map-entries op c = rw (visit-entries l m f packed r) (
      ap
        (λ n.
          (write_trivial op size_of_size n
              >=> write_each (λ e. serialize op k e.0 >=> serialize op s e.1) (entries m))
            c)
        (sym (length-entries m f r)))

  entries-IsValid :
      ((a b : Value k) → same k a b ≡ t.equal a b)
      → ((a : Value k) (v : Value s) → f a ≡ some v → IsValid k a × IsValid s v)
      → m.element_count < 2 ^ 64
      → IsValid (dictionary k s) (entries m)
  entries-IsValid eq valid few = (
    subst (λ n. n < 2 ^ 64) (sym (length-entries m f r)) few,
    All-map (λ e h. valid e.0 e.1 h) (entries m) (entries_sound m f r),
    Distinct-Fresh k (λ a b h. (t.equal_iff a b).0 (sym (eq a b) ∙ h)) [] (entries m)
        (entries-Distinct m f r) (none_seen k (entries m)),
  )

-- Where no padding comes between a key and its value, `==` of the keys is the equality of the
-- `HashMap` and the keys and values are valid, `serialize_map` of the tables writes what
-- `serialize` of a map with these entries in some order does, and this, of less than `2 ^ 64` bytes
-- and followed by anything, is read into such a map, which has the same value for each key,
-- whatever it held before.
pub serialize_map-reads :
    (k s : Schema) ⦃t : Traits (Value k)⦄ (l : Layout (Value k)) (m : HashMap (Value k) (Value s))
    (f : Value k → Option (Value s))
    → padding l ≡ 0
    → Represents m f
    → ((a b : Value k) → same k a b ≡ t.equal a b)
    → ((a : Value k) (v : Value s) → f a ≡ some v → IsValid k a × IsValid s v)
    → m.element_count < 2 ^ 64
    → (es : Value (dictionary k s)) × ((op : Operation) (c : SerializeContext)
        → serialize_map op k s l m c ≡ serialize op (dictionary k s) es c)
      × ((target : Value (dictionary k s)) (rest : List ℕ)
          → length (encode (dictionary k s) es ++ rest) < 2 ^ 64
          → deserialize (dictionary k s) target (view (encode (dictionary k s) es ++ rest))
            ≡ ok (es, view rest))
      × ((a : Value k) → lookup es a ≡ f a)
serialize_map-reads k s l m f packed r eq valid few = (
  entries m,
  serialize_map-entries k s l packed m f r,
  λ target rest small.
      deserialize-encode (dictionary k s) target (entries m) rest
        (entries-IsValid k s l packed m f r eq valid few) small,
  λ a. entries-lookup m f a r,
)
