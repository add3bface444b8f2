-- ===== src/Serialization/Calls.antt =====
-- The functions of include/serialization.h that callers use, over any number of values: the values of
-- one call are a pack of types `ss`.
use turbokit.Base.{ℕ, ◌-◌, none, some, List, [], length, ltb, ◌==◌, if◌then◌else◌}
use turbokit.Serialization.Schema.{Schemas, Values}
use turbokit.Serialization.Writer.{size_operation, write_operation, SerializeContext, serialize_all}
use turbokit.Serialization.Reader.{
  DataReader, Outcome, ok, format_error, fault, view, deserialize_all, resize, ◌>>=◌,
}

-- A context at the start of a memory.
abbrev pub context_at : ℕ → List ℕ → SerializeContext
context_at i memory = record { memory = memory; start = i; current = i }

unfoldable pub tell : SerializeContext → ℕ
tell c = c.current - c.start

-- The first pass of every call, from the null pointer.
unfoldable pub count_bytes : (ss : Schemas) → Values ss → ℕ
count_bytes ss vs = elim (serialize_all size_operation ss vs (context_at 0 [])) [
  | none ↦ 0
  | some c ↦ c.current
]

-- The second pass; the memory after it, or `fault` for a write outside of it.
unfoldable pub write_at : ℕ → List ℕ → (ss : Schemas) → Values ss → Outcome SerializeContext
write_at i memory ss vs = elim (serialize_all write_operation ss vs (context_at i memory)) [
  | none ↦ fault
  | some c ↦ ok c
]

-- The output is a container of bytes, which new elements make longer with zeros.
unfoldable pub serialize_to : List ℕ → (ss : Schemas) → Values ss → Outcome (List ℕ)
serialize_to output ss vs = do
  c ← write_at 0 (resize (count_bytes ss vs) 0 output) ss vs
  ok c.memory

-- `make_buffer` is what the memory of a new block holds, by its size.
unfoldable pub serialize_to_buffer : (ℕ → List ℕ) → (ss : Schemas) → Values ss → Outcome (List ℕ)
serialize_to_buffer make_buffer ss vs = do
  c ← write_at 0 (make_buffer (count_bytes ss vs)) ss vs
  ok c.memory

unfoldable pub serialize_to_string_view : List ℕ → (ss : Schemas) → Values ss → Outcome (List ℕ)
serialize_to_string_view buffer ss vs =
    if ltb (length buffer) (count_bytes ss vs)
    then format_error
    else (do c ← write_at 0 buffer ss vs; ok c.memory)

-- The memory after the call, and the number of bytes written.
unfoldable pub serialize_to_unchecked :
    ℕ → List ℕ → (ss : Schemas) → Values ss → Outcome (List ℕ × ℕ)
serialize_to_unchecked pointer memory ss vs = do
  c ← write_at pointer memory ss vs
  ok (c.memory, tell c)

-- The results, and the part of the data that is left.
unfoldable pub deserialize_buffer_part :
    List ℕ → (ss : Schemas) → Values ss → Outcome (Values ss × DataReader)
deserialize_buffer_part bytes ss results = deserialize_all ss results (view bytes)

unfoldable pub deserialize_buffer : List ℕ → (ss : Schemas) → Values ss → Outcome (Values ss)
deserialize_buffer bytes ss results = do
  (vs, r) ← deserialize_all ss results (view bytes)
  if r.size == 0 then ok vs else format_error
