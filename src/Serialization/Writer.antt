-- ===== src/Serialization/Writer.antt =====
-- `DataWriter` and `SerializeContext` of include/serialization.h, and the `serialize` overloads that
-- write. One context counts bytes (`SizeOperation`), the other copies them to memory
-- (`WriteOperation`).
use turbokit.Base.{
  ℕ, zero, suc, ◌+◌, ◌*◌, ◌%◌, ◌^◌, Option, none, some, List, [], ◌∷◌, ◌++◌, length, take, inl, inr,
}
use turbokit.Serialization.Schema.{
  Schema, Schemas, trivial, string, pair, optional, variant, tuple, trivial_vector, vector,
  dictionary, end, field, Value, Values, Choice,
}
use turbokit.Serialization.Bytes.{to_bytes, size_of_size}

pub data Operation : Type 0 where
  size_operation write_operation : Operation

-- `current` and `start` are addresses; `memory` is what the destination points into, from address 0.
pub record SerializeContext : Type 0 where
  pub memory : List ℕ
  pub start : ℕ
  pub current : ℕ

infixl 5 ◌>>=◌
abbrev pub ◌>>=◌ : {A B : Type 0} → Option A → (A → Option B) → Option B
none >>= f = none
some a >>= f = f a

-- A call that writes; `none` is a write past the end of the memory.
abbrev pub Writing : Type 0
Writing = SerializeContext → Option SerializeContext

infixl 5 ◌>=>◌
abbrev pub ◌>=>◌ : Writing → Writing → Writing
(f >=> g) c = f c >>= g

-- `std::memcpy` to the address `i`.
unfoldable pub copy_to : ℕ → List ℕ → List ℕ → Option (List ℕ)
copy_to i [] memory = some memory
copy_to i (b ∷ bs) [] = none
copy_to zero (b ∷ bs) (m ∷ memory) = elim (copy_to 0 bs memory) [
  | none ↦ none
  | some rest ↦ some (b ∷ rest)
]
copy_to (suc i) (b ∷ bs) (m ∷ memory) = elim (copy_to i (b ∷ bs) memory) [
  | none ↦ none
  | some rest ↦ some (m ∷ rest)
]

-- `DataWriter::write` from a source that may be null.
unfoldable pub write : Operation → Option (List ℕ) → ℕ → Writing
write size_operation source n c = some (record c { current = (c.current + n) % 2 ^ 64 })
write write_operation none n c = some (record c { current = c.current + n })
write write_operation (some source) n c = do
  memory ← copy_to c.current (take n source) c.memory
  some (record c { memory = memory; current = c.current + n })

unfoldable pub write_trivial : Operation → ℕ → ℕ → Writing
write_trivial op w n = write op (some (to_bytes w n)) w

unfoldable pub write_string : Operation → List ℕ → Writing
write_string op s = write_trivial op size_of_size (length s) >=> write op (some s) (length s)

abbrev pub spell : ℕ → List ℕ → List ℕ
spell w [] = []
spell w (x ∷ xs) = to_bytes w x ++ spell w xs

-- The write of a `std::basic_string_view`, of elements of `w` bytes.
unfoldable pub write_view : Operation → ℕ → List ℕ → Writing
write_view op w xs =
    write_trivial op size_of_size (length xs)
    >=> write op (some (spell w xs)) (w * length xs % 2 ^ 64)

-- The loop of `serialize_container`, and that of `serialize_map`.
abbrev pub write_each : {A : Type 0} → (A → Writing) → List A → Writing
write_each f [] = some
write_each f (x ∷ xs) = f x >=> write_each f xs

-- `std::variant::index`, of an alternative after the first one.
abbrev pub choice_index : (ss : Schemas) → Choice ss → ℕ
choice_index end v = absurd v
choice_index (field s ss) (inl v) = 0
choice_index (field s ss) (inr v) = suc (choice_index ss v)

-- `SerializeContext::operator()`, which finds the `serialize` of the type.
unfoldable mutual
  pub serialize : Operation → (s : Schema) → Value s → Writing
  serialize op (trivial w) v = write_trivial op w v
  serialize op string v = write_string op v
  serialize op (pair a b) v = serialize op a v.0 >=> serialize op b v.1
  serialize op (optional s) none = write_trivial op 1 0
  serialize op (optional s) (some v) = write_trivial op 1 1 >=> serialize op s v
  serialize op (variant s ss) (inl v) = write_trivial op size_of_size 0 >=> serialize op s v
  serialize op (variant s ss) (inr v) =
      write_trivial op size_of_size (suc (choice_index ss v)) >=> visit op ss v
  serialize op (tuple ss) v = serialize_all op ss v
  serialize op (trivial_vector w) v =
      write_trivial op size_of_size (length v) >=> write_each (write_trivial op w) v
  serialize op (vector s) v =
      write_trivial op size_of_size (length v) >=> write_each (serialize op s) v
  serialize op (dictionary k s) v =
      write_trivial op size_of_size (length v)
      >=> write_each (λ e. serialize op k e.0 >=> serialize op s e.1) v

  pub serialize_all : Operation → (ss : Schemas) → Values ss → Writing
  serialize_all op end v = some
  serialize_all op (field s ss) v = serialize op s v.0 >=> serialize_all op ss v.1

  pub visit : Operation → (ss : Schemas) → Choice ss → Writing
  visit op end v = absurd v
  visit op (field s ss) (inl v) = serialize op s v
  visit op (field s ss) (inr v) = visit op ss v
