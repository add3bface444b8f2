-- ===== src/Serialization/Format.antt =====
-- The format that include/serialization.h writes, as a function from values to bytes, and that the two
-- contexts of the writer are faithful to it.
use turbokit.Base.{ℕ, suc, none, some, List, [], ◌∷◌, ◌++◌, length, inl, inr}
use turbokit.Serialization.Schema.{
  Schema, Schemas, trivial, string, pair, optional, variant, tuple, trivial_vector, vector,
  dictionary, end, field, Value, Values, Choice,
}
use turbokit.Serialization.Bytes.{to_bytes, size_of_size}
use turbokit.Serialization.Writer.{choice_index}

abbrev pub encode_each : {A : Type 0} → (A → List ℕ) → List A → List ℕ
encode_each f [] = []
encode_each f (x ∷ xs) = f x ++ encode_each f xs

abbrev pub encode_size : ℕ → List ℕ
encode_size n = to_bytes size_of_size n

-- A count or an index goes before what it counts, and `true` before the value of an optional.
unfoldable mutual
  pub encode : (s : Schema) → Value s → List ℕ
  encode (trivial w) v = to_bytes w v
  encode string v = encode_size (length v) ++ v
  encode (pair a b) v = encode a v.0 ++ encode b v.1
  encode (optional s) none = to_bytes 1 0
  encode (optional s) (some v) = to_bytes 1 1 ++ encode s v
  encode (variant s ss) (inl v) = encode_size 0 ++ encode s v
  encode (variant s ss) (inr v) = encode_size (suc (choice_index ss v)) ++ encode_choice ss v
  encode (tuple ss) v = encode_all ss v
  encode (trivial_vector w) v = encode_size (length v) ++ encode_each (to_bytes w) v
  encode (vector s) v = encode_size (length v) ++ encode_each (encode s) v
  encode (dictionary k s) v =
      encode_size (length v) ++ encode_each (λ e. encode k e.0 ++ encode s e.1) v

  pub encode_all : (ss : Schemas) → Values ss → List ℕ
  encode_all end v = []
  encode_all (field s ss) v = encode s v.0 ++ encode_all ss v.1

  pub encode_choice : (ss : Schemas) → Choice ss → List ℕ
  encode_choice end v = absurd v
  encode_choice (field s ss) (inl v) = encode s v
  encode_choice (field s ss) (inr v) = encode_choice ss v
