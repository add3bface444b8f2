-- ===== src/Serialization/RoundTrip.antt =====
-- Every `serialize` overload reads what its counterpart writes.
use turbokit.Base.{
  All, if_false, ℕ, suc, ◌-◌, ◌^◌, ◌≡◌, ◌<◌, refl, ap, ◌∙◌, Bool, false, Option, none, some, List,
  [], ◌∷◌, ◌++◌, append-nil, append_assoc, length, length-append, length-take, length-replicate,
  take, replicate, inl, inr, arith, ◌==◌, if◌then◌else◌,
}
use mathlib.Core.Path.{subst}
use turbokit.Serialization.Schema.{
  Schema, Schemas, trivial, string, pair, optional, variant, tuple, trivial_vector, vector,
  dictionary, end, field, Value, Values, Choice, default_value, same,
}
use turbokit.Serialization.Bytes.{to_bytes}
use turbokit.Serialization.Writer.{choice_index}
use turbokit.Serialization.Format.{encode, encode_all, encode_choice, encode_each}
use turbokit.Serialization.Reader.{
  DataReader, ok, format_error, ◌>>=◌, Reading, view, resize, read_each, read_entries, emplace,
  contains, deserialize, deserialize_all, deserialize_variant_helper,
}
use turbokit.Serialization.Valid.{Fresh, IsValid, AreValid, IsValidChoice}
use turbokit.Serialization.Parses.{
  Parses, Parses-then, Parses-map, Parses-nothing, Parses-as, Parses-trivial,
}
use turbokit.Serialization.Views.{Parses-size, Parses-string, Parses-trivial_vector}

pub length-resize : {A : Type 0} (n : ℕ) (a : A) (xs : List A) → length (resize n a xs) ≡ n
length-resize n a xs = omega (
  arith,
  length-append (take n xs) (replicate (n - length xs) a),
  length-take n xs,
  length-replicate (n - length xs) a,
)

Parses-each :
    {A : Type 0} (f : A → Reading A) (code : A → List ℕ) (P : A → Type 0)
    → ((t x : A) → P x → Parses (f t) x (code x))
    → (ts xs : List A) → length ts ≡ length xs
    → All P xs
    → Parses (read_each f ts) xs (encode_each code xs)
unfolding read_each
Parses-each f code P h [] [] e a = Parses-nothing []
Parses-each f code P h [] (x ∷ xs) e a = absurd (omega (arith, e))
Parses-each f code P h (t ∷ ts) [] e a = absurd (omega (arith, e))
Parses-each f code P h (t ∷ ts) (x ∷ xs) e a =
    Parses-then (λ y r. read_each f ts r >>= λ q. ok (y ∷ q.0, q.1)) (h t x a.0)
      (Parses-map (λ ys. x ∷ ys) (Parses-each f code P h ts xs (omega (arith, e)) a.1))

emplace-fresh :
    {K V : Type 0} (eq : K → K → Bool) (k : K) (v : V) (es : List (K × V))
    → contains eq k es ≡ false
    → emplace eq k v es ≡ es ++ ((k, v) ∷ [])
unfolding emplace
emplace-fresh eq k v es h = if_false _ h

module _ (k : Schema) {V : Type 0} (read_key : Reading (Value k)) (read_value : Reading V)
    (key_code : Value k → List ℕ) (value_code : V → List ℕ) (P : Value k × V → Type 0)
    (keys : (e : Value k × V) → P e → Parses read_key e.0 (key_code e.0))
    (values : (e : Value k × V) → P e → Parses read_value e.1 (value_code e.1)) where
  Parses-entries :
      (seen es : List (Value k × V))
      → All P es
      → Fresh k seen es
      → Parses
          (read_entries (same k) read_key read_value (length es) seen)
          (seen ++ es)
          (encode_each (λ e. key_code e.0 ++ value_code e.1) es)
  unfolding read_entries
  Parses-entries seen [] a fresh = rw (append-nil seen) (Parses-nothing seen)
  Parses-entries seen (e ∷ es) a fresh =
      rw
        (
          append_assoc (key_code e.0) (value_code e.1)
              (encode_each (λ e. key_code e.0 ++ value_code e.1) es),
          ← append_assoc seen (e ∷ []) es,
        )
        (Parses-then
          (λ key r. read_value r >>= λ q.
            read_entries (same k) read_key read_value (length es) (emplace (same k) key q.0 seen)
              q.1)
          (keys e a.0)
          (Parses-then
            (λ v r.
              read_entries (same k) read_key read_value (length es) (emplace (same k) e.0 v seen) r)
            (values e a.0)
            (rw (emplace-fresh (same k) e.0 e.1 seen fresh.0)
              (Parses-entries (seen ++ (e ∷ [])) es a.1 fresh.1))))

-- The rest of an optional after its flag, and of a variant after its index.
abbrev pub read_optional : (s : Schema) → ℕ → Reading (Option (Value s))
read_optional s flag r =
    if flag == 0
    then ok (none, r)
    else (deserialize s (default_value s) r >>= λ q. ok (some q.0, q.1))

abbrev pub found_or :
    (s : Schema) (ss : Schemas) → Value (variant s ss) → Option (Choice ss) → Value (variant s ss)
found_or s ss target none = target
found_or s ss target (some x) = inr x

abbrev pub read_variant :
    (s : Schema) (ss : Schemas) → Value (variant s ss) → ℕ → Reading (Value (variant s ss))
read_variant s ss target index r =
    if index == 0
    then (deserialize s (default_value s) r >>= λ q. ok (inl q.0, q.1))
    else (deserialize_variant_helper ss (index - 1) r >>= λ q. ok (found_or s ss target q.0, q.1))

-- At an index past the first, both go on with the alternatives after it.
if_later :
    {A : Type 0} (x : A) (f : ℕ → A) (i : ℕ) → (if suc i == 0 then x else f (suc i - 1)) ≡ f i
if_later x f i = if_false {b = suc i == 0} x {y = f (suc i - 1)} (ground arith) ∙ ap f (omega arith)

pub read_variant-later :
    (s : Schema) (ss : Schemas) (target : Value (variant s ss)) (i : ℕ) (r : DataReader)
    → read_variant s ss target (suc i) r
      ≡ (deserialize_variant_helper ss i r >>= λ q. ok (found_or s ss target q.0, q.1))
read_variant-later s ss target i r =
    if_later (deserialize s (default_value s) r >>= λ q. ok (inl q.0, q.1))
      (λ j. deserialize_variant_helper ss j r >>= λ q. ok (found_or s ss target q.0, q.1)) i

abbrev pub shift_choice :
    (s : Schema) (ss : Schemas) → Option (Choice ss) → Option (Choice (field s ss))
shift_choice s ss none = none
shift_choice s ss (some x) = some (inr x)

pub deserialize_variant_helper-later :
    (s : Schema) (ss : Schemas) (i : ℕ) (r : DataReader)
    → deserialize_variant_helper (field s ss) (suc i) r
      ≡ (deserialize_variant_helper ss i r >>= λ q. ok (shift_choice s ss q.0, q.1))
unfolding deserialize
deserialize_variant_helper-later s ss i r =
    if_later (deserialize s (default_value s) r >>= λ q. ok (some (inl q.0), q.1))
      (λ j. deserialize_variant_helper ss j r >>= λ q. ok (shift_choice s ss q.0, q.1)) i

mutual
  unfolding deserialize encode

  pub deserialize-Parses :
      (s : Schema) (target v : Value s) → IsValid s v → Parses (deserialize s target) v (encode s v)
  deserialize-Parses (trivial w) target v h = Parses-trivial w v h
  deserialize-Parses string target v h = Parses-string target v h
  deserialize-Parses (pair a b) target v h =
      Parses-then (λ x r. deserialize b target.1 r >>= λ q. ok ((x, q.0), q.1))
        (deserialize-Parses a target.0 v.0 h.0)
        (Parses-map (λ y. (v.0, y)) (deserialize-Parses b target.1 v.1 h.1))
  deserialize-Parses (optional s) target none h =
      subst (λ code. Parses (deserialize (optional s) target) none code) (append-nil (to_bytes 1 0))
        (Parses-then (read_optional s) (Parses-trivial 1 0 (omega arith)) (Parses-nothing none))
  deserialize-Parses (optional s) target (some v) h =
      Parses-then (read_optional s) (Parses-trivial 1 1 (omega arith))
        (Parses-map (λ x. some x) (deserialize-Parses s (default_value s) v h))
  deserialize-Parses (variant s ss) target (inl v) h =
      Parses-then (read_variant s ss target) (Parses-size 0 (omega arith))
        (Parses-map (λ x. inl x) (deserialize-Parses s (default_value s) v h))
  deserialize-Parses (variant s ss) target (inr v) h =
      Parses-then (read_variant s ss target) (Parses-size (suc (choice_index ss v)) h.0) (
        Parses-as (read_variant-later s ss target (choice_index ss v))
          (Parses-map (found_or s ss target) (deserialize_variant_helper-Parses ss v h.1)))
  deserialize-Parses (tuple ss) target v h = deserialize_all-Parses ss target v h
  deserialize-Parses (trivial_vector w) target v h = Parses-trivial_vector w target v h
  deserialize-Parses (vector s) target v h =
      Parses-then (λ n r. read_each (deserialize s) (resize n (default_value s) target) r)
        (Parses-size (length v) h.0)
        (Parses-each (deserialize s) (encode s) (IsValid s) (λ t x. deserialize-Parses s t x)
          (resize (length v) (default_value s) target) v
          (length-resize (length v) (default_value s) target) h.1)
  deserialize-Parses (dictionary k s) target v h =
      Parses-then
        (λ n r.
          read_entries (same k) (deserialize k (default_value k)) (deserialize s (default_value s))
            n [] r)
        (Parses-size (length v) h.0)
        (Parses-entries k (deserialize k (default_value k)) (deserialize s (default_value s))
          (encode k) (encode s) (λ e. IsValid k e.0 × IsValid s e.1)
          (λ e p. deserialize-Parses k (default_value k) e.0 p.0)
          (λ e p. deserialize-Parses s (default_value s) e.1 p.1) [] v h.1 h.2)

  pub deserialize_all-Parses :
      (ss : Schemas) (target v : Values ss)
      → AreValid ss v
      → Parses (deserialize_all ss target) v (encode_all ss v)
  deserialize_all-Parses end target v h = Parses-nothing tt
  deserialize_all-Parses (field s ss) target v h =
      Parses-then (λ x r. deserialize_all ss target.1 r >>= λ q. ok ((x, q.0), q.1))
        (deserialize-Parses s target.0 v.0 h.0)
        (Parses-map (λ y. (v.0, y)) (deserialize_all-Parses ss target.1 v.1 h.1))

  pub deserialize_variant_helper-Parses :
      (ss : Schemas) (v : Choice ss)
      → IsValidChoice ss v
      → Parses (deserialize_variant_helper ss (choice_index ss v)) (some v) (encode_choice ss v)
  deserialize_variant_helper-Parses end v h = absurd v
  deserialize_variant_helper-Parses (field s ss) (inl v) h =
      Parses-map (λ x. some (inl x)) (deserialize-Parses s (default_value s) v h)
  deserialize_variant_helper-Parses (field s ss) (inr v) h =
      Parses-as (deserialize_variant_helper-later s ss (choice_index ss v))
        (Parses-map (shift_choice s ss) (deserialize_variant_helper-Parses ss v h))

-- A valid value of any type, serialized and followed by anything, all in less than `2 ^ 64` bytes, is
-- read back, whatever the object held before, and what follows it is left.
pub deserialize-encode :
    (s : Schema) (target v : Value s) (rest : List ℕ)
    → IsValid s v
    → length (encode s v ++ rest) < 2 ^ 64
    → deserialize s target (view (encode s v ++ rest)) ≡ ok (v, view rest)
deserialize-encode s target v rest h l =
    Parses.reads (deserialize-Parses s target v h) (encode s v ++ rest) rest refl l

-- A serialized valid value of any type, in less than `2 ^ 64` bytes, that lacks one or more of its last
-- bytes is refused with `DataFormatError`.
pub deserialize-take :
    (s : Schema) (target v : Value s) (n : ℕ)
    → IsValid s v
    → n < length (encode s v)
    → length (encode s v) < 2 ^ 64
    → deserialize s target (view (take n (encode s v))) ≡ format_error
deserialize-take s target v n h lt l = Parses.truncates (deserialize-Parses s target v h) n lt l
