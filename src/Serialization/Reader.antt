-- ===== src/Serialization/Reader.antt =====
-- `DataReader` and `DeserializeContext` of include/serialization.h, and the `serialize` overloads that
-- read.
use turbokit.Base.{
  ℕ, zero, suc, ◌+◌, ◌-◌, ◌*◌, ◌%◌, ◌^◌, Bool, false, ◌||◌, Option, none, some, List, [], ◌∷◌, ◌++◌,
  length, take, drop, replicate, inl, inr, ltb, ◌==◌, if◌then◌else◌,
}
use turbokit.Serialization.Schema.{
  Schema, Schemas, trivial, string, pair, optional, variant, tuple, trivial_vector, vector,
  dictionary, end, field, Value, Values, Choice, default_value, same,
}
use turbokit.Serialization.Bytes.{of_bytes, size_of_size}
use turbokit.Serialization.Writer.{spell}

-- The buffer of a reader: the memory from its pointer on, and the size it is believed to have.
pub record DataReader : Type 0 where
  pub content : List ℕ
  pub size : ℕ

-- `format_error` is `DataFormatError`, `length_error` the exception of a container that cannot be so
-- long, and `fault` a read past the end of the memory.
pub data Outcome (A : Type 0) : Type 0 where
  ok : A → Outcome A
  format_error : Outcome A
  length_error : Outcome A
  fault : Outcome A

infixl 5 ◌>>=◌
abbrev pub ◌>>=◌ : {A B : Type 0} → Outcome A → (A → Outcome B) → Outcome B
ok a >>= f = f a
format_error >>= f = format_error
length_error >>= f = length_error
fault >>= f = fault

-- A call that reads.
abbrev pub Reading : Type 0 → Type 0
Reading A = DataReader → Outcome (A × DataReader)

-- `DataReader(std::string_view)`
abbrev pub view : List ℕ → DataReader
view bytes = record { content = bytes; size = length bytes }

-- A size is below `2 ^ 64`, and so is what it is less by.
unfoldable pub advance : ℕ → DataReader → DataReader
advance n r = record { content = drop n r.content; size = (r.size + 2 ^ 64 - n) % 2 ^ 64 }

-- `DeserializeContext::consume`
unfoldable pub consume : ℕ → DataReader → List ℕ × DataReader
consume n r = (r.content, advance n r)

unfoldable pub empty : DataReader → Bool
empty r = r.size == 0

-- `std::memcpy` of `n` bytes out of this memory.
unfoldable pub copy_from : ℕ → List ℕ → Outcome (List ℕ)
copy_from n content = if ltb (length content) n then fault else ok (take n content)

-- `DataReader::read` of a trivial type.
unfoldable pub read_trivial : ℕ → Reading ℕ
read_trivial w r =
    if ltb r.size w
    then format_error
    else (do bytes ← copy_from w r.content; ok (of_bytes bytes, advance w r))

pub record StringView : Type 0 where
  pub first : List ℕ
  pub count : ℕ

-- The product is computed in `size_t`.
unfoldable pub read_string_view : ℕ → Reading StringView
read_string_view w r = do
  (count, r1) ← read_trivial size_of_size r
  if ltb r1.size (w * count % 2 ^ 64)
      then format_error
      else ok (record { first = r1.content; count = count }, advance (w * count % 2 ^ 64) r1)

unfoldable pub read_string : Reading StringView
read_string r = do
  (count, r1) ← read_trivial size_of_size r
  if ltb r1.size count
      then format_error
      else ok (record { first = r1.content; count = count }, advance count r1)

abbrev pub resize : {A : Type 0} → ℕ → A → List A → List A
resize n a xs = take n xs ++ replicate (n - length xs) a

-- `n` elements of `w` bytes.
unfoldable pub cut : ℕ → ℕ → List ℕ → List ℕ
cut w zero bytes = []
cut w (suc n) bytes = of_bytes (take w bytes) ∷ cut w n (drop w bytes)

-- `serialize_container` of trivial elements, after the view has been read: the container has the
-- view's count of elements, or throws where these are more than `2 ^ 63 - 1` bytes, and its first bytes
-- are copied over.
unfoldable pub copy_items : ℕ → StringView → List ℕ → Outcome (List ℕ)
copy_items w v target = if ltb (2 ^ 63 - 1) (w * v.count) then length_error else (do
  bytes ← copy_from (w * v.count % 2 ^ 64) v.first
  ok (cut w v.count (bytes ++ drop (length bytes) (spell w (resize v.count 0 target)))))

-- The loop of `serialize_container`, into each element of the container.
unfoldable pub read_each : {A : Type 0} → (A → Reading A) → List A → Reading (List A)
read_each f [] r = ok ([], r)
read_each f (x ∷ xs) r = do (y, r1) ← f x r; (ys, r2) ← read_each f xs r1; ok (y ∷ ys, r2)

abbrev pub contains : {K V : Type 0} → (K → K → Bool) → K → List (K × V) → Bool
contains eq k [] = false
contains eq k (e ∷ es) = eq e.0 k || contains eq k es

-- The maps' `emplace` leaves an entry with this key as it is.
unfoldable pub emplace : {K V : Type 0} → (K → K → Bool) → K → V → List (K × V) → List (K × V)
emplace eq k v es = if contains eq k es then es else es ++ ((k, v) ∷ [])

-- The loop of `serialize_map`.
unfoldable pub read_entries :
    {K V : Type 0}
    → (K → K → Bool)
    → Reading K
    → Reading V
    → ℕ
    → List (K × V)
    → Reading (List (K × V))
read_entries eq read_key read_value zero es r = ok (es, r)
read_entries eq read_key read_value (suc n) es r = do
  (k, r1) ← read_key r
  (v, r2) ← read_value r1
  read_entries eq read_key read_value n (emplace eq k v es) r2

-- `DeserializeContext::operator()` on an object, which has a value before. A new object has the
-- default value.
unfoldable mutual
  pub deserialize : (s : Schema) → Value s → Reading (Value s)
  deserialize (trivial w) target r = read_trivial w r
  deserialize string target r = do
    (v, r1) ← read_string r
    bytes ← copy_from v.count v.first
    ok (bytes, r1)
  deserialize (pair a b) target r = do
    (x, r1) ← deserialize a target.0 r
    (y, r2) ← deserialize b target.1 r1
    ok ((x, y), r2)
  deserialize (optional s) target r = do
    (has_value, r1) ← read_trivial 1 r
    if has_value == 0
        then ok (none, r1)
        else (do (v, r2) ← deserialize s (default_value s) r1; ok (some v, r2))
  deserialize (variant s ss) target r = do
    (index, r1) ← read_trivial size_of_size r
    if index == 0 then (do (v, r2) ← deserialize s (default_value s) r1; ok (inl v, r2)) else (do
      (found, r2) ← deserialize_variant_helper ss (index - 1) r1
      ok (elim found [ none ↦ target | some v ↦ inr v ], r2))
  deserialize (tuple ss) target r = deserialize_all ss target r
  deserialize (trivial_vector w) target r = do
    (v, r1) ← read_string_view w r
    items ← copy_items w v target
    ok (items, r1)
  deserialize (vector s) target r = do
    (count, r1) ← read_trivial size_of_size r
    read_each (deserialize s) (resize count (default_value s) target) r1
  deserialize (dictionary k s) target r = do
    (count, r1) ← read_trivial size_of_size r
    read_entries (same k) (deserialize k (default_value k)) (deserialize s (default_value s)) count
        [] r1

  pub deserialize_all : (ss : Schemas) → Values ss → Reading (Values ss)
  deserialize_all end target r = ok (tt, r)
  deserialize_all (field s ss) target r = do
    (v, r1) ← deserialize s target.0 r
    (vs, r2) ← deserialize_all ss target.1 r1
    ok ((v, vs), r2)

  -- The alternatives from some index on; `none` where the index is past the last.
  pub deserialize_variant_helper : (ss : Schemas) → ℕ → Reading (Option (Choice ss))
  deserialize_variant_helper end index r = ok (none, r)
  deserialize_variant_helper (field s ss) index r =
      if index == 0
      then (do (v, r1) ← deserialize s (default_value s) r; ok (some (inl v), r1))
      else (do
        (found, r1) ← deserialize_variant_helper ss (index - 1) r
        ok (elim found [ none ↦ none | some v ↦ some (inr v) ], r1))
