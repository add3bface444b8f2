-- ===== src/Tests/Bytes.antt =====
-- Concrete values for include/serialization.h.
use turbokit.Base.{
  ℕ, ◌^◌, ◌≡◌, refl, none, some, List, [], ◌∷◌, ◌++◌, length, length-append, take, drop, replicate,
  ltb, if◌then◌else◌, inl, inr, arith,
}
use turbokit.Serialization.Schema.{
  Schema, Schemas, trivial, string, pair, optional, variant, trivial_vector, vector, dictionary,
  end, field, Value, Values, same,
}
use turbokit.Serialization.Bytes.{to_bytes, length-to_bytes}
use turbokit.Serialization.Writer.{write_operation, SerializeContext, write, serialize}
use turbokit.Serialization.Format.{encode, encode_all, encode_size}
use turbokit.Serialization.Refine.{serialize-encode}
use turbokit.Serialization.Reader.{
  ok, format_error, length_error, read_string_view, view, deserialize, ◌>>=◌,
}
use turbokit.Serialization.Valid.{IsValid, AreValid}
use turbokit.Serialization.RoundTrip.{deserialize-encode, deserialize-take}
use turbokit.Serialization.Inside.{StaysInside}
use turbokit.Serialization.Bounds.{deserialize-StaysInside}
use turbokit.Serialization.Calls.{serialize_to, serialize_to_string_view, deserialize_buffer}
use turbokit.Serialization.Deliver.{
  serialize_to-encode, serialize_to_string_view-fits, deserialize_buffer-serialize_to,
}
use turbokit.Serialization.Limits.{deserialize-wrapped}

-- `HashMap<std::string, std::pair<std::optional<uint32_t>, std::variant<uint8_t, std::vector<std::string>>>>`
abbrev entry_variant : Schema
entry_variant = variant (trivial 1) (field (vector string) end)

abbrev entry : Schema
entry = pair (optional (trivial 4)) entry_variant

abbrev registry : Schema
registry = dictionary string entry

abbrev two_entries : Value registry
two_entries =
    (65 ∷ [], (some 70000, inr (inl ((66 ∷ 67 ∷ []) ∷ [] ∷ [])))) ∷ (68 ∷ [], (none, inl 9)) ∷ []

two_entries-IsValid : IsValid registry two_entries
unfolding same
two_entries-IsValid = (
  omega arith,
  (
    (omega arith, (omega arith, (omega arith, (omega arith, (omega arith, (omega arith, tt)))))),
    ((omega arith, (tt, omega arith)), tt),
  ),
  (refl, (refl, tt)),
)

length_entries : length (encode registry two_entries) ≡ 75
unfolding encode to_bytes
length_entries = refl

deserialize-encode_example :
    deserialize registry
      ((7 ∷ [], (none, inl 1)) ∷ [])
      (view (encode registry two_entries ++ (5 ∷ [])))
    ≡ ok (two_entries, view (5 ∷ []))
deserialize-encode_example =
    deserialize-encode registry ((7 ∷ [], (none, inl 1)) ∷ []) two_entries (5 ∷ [])
      two_entries-IsValid
      (omega (arith, length-append (encode registry two_entries) (5 ∷ []), length_entries))

deserialize-take_example :
    deserialize registry [] (view (take 74 (encode registry two_entries))) ≡ format_error
deserialize-take_example =
    deserialize-take registry [] two_entries 74 two_entries-IsValid (omega (arith, length_entries))
      (omega (arith, length_entries))

abbrev context : SerializeContext
context = record { memory = replicate 80 0; start = 2; current = 2 }

serialize-encode_example :
    serialize write_operation registry two_entries context
    ≡ write write_operation
        (some (encode registry two_entries))
        (length (encode registry two_entries))
        context
serialize-encode_example = serialize-encode write_operation registry two_entries context tt

-- One element of 3 bytes, and a byte after it.
deserialize-StaysInside_example :
    StaysInside
      (encode_size 1 ++ (1 ∷ 2 ∷ 3 ∷ 4 ∷ []))
      (deserialize (trivial_vector 3) [] (view (encode_size 1 ++ (1 ∷ 2 ∷ 3 ∷ 4 ∷ []))))
deserialize-StaysInside_example =
    deserialize-StaysInside (trivial_vector 3) [] (encode_size 1 ++ (1 ∷ 2 ∷ 3 ∷ 4 ∷ []))
      (omega (arith, length-append (encode_size 1) (1 ∷ 2 ∷ 3 ∷ 4 ∷ []), length-to_bytes 8 1))

abbrev pack : Schemas
pack = field (trivial 2) (field registry end)

abbrev packed : Values pack
packed = (513, (two_entries, tt))

length-packed : length (encode_all pack packed) ≡ 77
unfolding encode to_bytes
length-packed = refl

packed-AreValid : AreValid pack packed
packed-AreValid = (omega arith, (two_entries-IsValid, tt))

serialize_to-encode_example : serialize_to (1 ∷ 2 ∷ []) pack packed ≡ ok (encode_all pack packed)
serialize_to-encode_example =
    serialize_to-encode pack packed (1 ∷ 2 ∷ []) (omega (arith, length-packed))

abbrev target : List ℕ
target = replicate 80 1

serialize_to_string_view-fits_example : serialize_to_string_view target pack packed ≡ (
    if ltb (length target) (length (encode_all pack packed))
    then format_error
    else ok (encode_all pack packed ++ drop (length (encode_all pack packed)) target))
serialize_to_string_view-fits_example =
    serialize_to_string_view-fits pack packed target (omega (arith, length-packed))

deserialize_buffer-serialize_to_example :
    (serialize_to [] pack packed >>= λ bytes. deserialize_buffer bytes pack (0, ([], tt)))
    ≡ ok packed
deserialize_buffer-serialize_to_example =
    deserialize_buffer-serialize_to pack packed [] (0, ([], tt)) packed-AreValid
      (omega (arith, length-packed))

deserialize-wrapped_example :
    (read_string_view 8 (view (encode_size (2 ^ 61) ++ (4 ∷ [])))
      ≡ ok (record { first = 4 ∷ []; count = 2 ^ 61 }, view (4 ∷ [])))
    × (deserialize (trivial_vector 8) [] (view (encode_size (2 ^ 61) ++ (4 ∷ []))) ≡ length_error)
deserialize-wrapped_example =
    deserialize-wrapped 8 (2 ^ 61) [] (4 ∷ []) (omega arith) (omega arith) (omega arith)
      (omega (arith, length-append (encode_size (2 ^ 61)) (4 ∷ []), length-to_bytes 8 (2 ^ 61)))
