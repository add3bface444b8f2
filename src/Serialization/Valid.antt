-- ===== src/Serialization/Valid.antt =====
-- The values that the types hold: a trivial value fits its size, a count is a `size_t`,
-- trivial elements have less than `2 ^ 63` bytes together, and no key of a
-- map is the same as one before it.
use turbokit.Base.{
  All, ℕ, suc, ◌*◌, ◌^◌, ◌≡◌, ◌<◌, false, none, some, List, [], ◌∷◌, ◌++◌, length, inl, inr,
}
use turbokit.Serialization.Schema.{
  Schema, Schemas, trivial, string, pair, optional, variant, tuple, trivial_vector, vector,
  dictionary, end, field, Value, Values, Choice, same,
}
use turbokit.Serialization.Writer.{choice_index}
use turbokit.Serialization.Reader.{contains}

-- No key of the entries `es` is among the keys before it, those of `seen` included.
abbrev pub Fresh : (k : Schema) {V : Type 0} → List (Value k × V) → List (Value k × V) → Type 0
Fresh k seen [] = Unit
Fresh k seen (e ∷ es) = (contains (same k) e.0 seen ≡ false) × Fresh k (seen ++ (e ∷ [])) es

abbrev pub IsSize : ℕ → Type 0
IsSize n = n < 2 ^ 64

abbrev mutual
  pub IsValid : (s : Schema) → Value s → Type 0
  IsValid (trivial w) v = v < 256 ^ w
  IsValid string v = IsSize (length v)
  IsValid (pair a b) v = IsValid a v.0 × IsValid b v.1
  IsValid (optional s) none = Unit
  IsValid (optional s) (some v) = IsValid s v
  IsValid (variant s ss) (inl v) = IsValid s v
  IsValid (variant s ss) (inr v) = IsSize (suc (choice_index ss v)) × IsValidChoice ss v
  IsValid (tuple ss) v = AreValid ss v
  IsValid (trivial_vector w) v =
      IsSize (length v) × (w * length v < 2 ^ 63) × All (λ x. x < 256 ^ w) v
  IsValid (vector s) v = IsSize (length v) × All (IsValid s) v
  IsValid (dictionary k s) v =
      IsSize (length v) × All (λ e. IsValid k e.0 × IsValid s e.1) v × Fresh k [] v

  pub AreValid : (ss : Schemas) → Values ss → Type 0
  AreValid end v = Unit
  AreValid (field s ss) v = IsValid s v.0 × AreValid ss v.1

  pub IsValidChoice : (ss : Schemas) → Choice ss → Type 0
  IsValidChoice end v = absurd v
  IsValidChoice (field s ss) (inl v) = IsValid s v
  IsValidChoice (field s ss) (inr v) = IsValidChoice ss v
