-- ===== src/Serialization/Refine.antt =====
-- Every `serialize` overload writes the format.
use turbokit.Base.{
  ℕ, suc, ◌*◌, ◌^◌, ◌≡◌, ◌<◌, refl, sym, ap, ◌∙◌, none, some, List, [], ◌∷◌, ◌++◌, length,
  length-append, inl, inr, arith,
}
use native.Mathlib.Nat.{mod-eq_of_lt}
use turbokit.Serialization.Schema.{
  Schema, Schemas, trivial, string, pair, optional, variant, tuple, trivial_vector, vector,
  dictionary, end, field, Value, Values, Choice,
}
use turbokit.Serialization.Bytes.{to_bytes, length-to_bytes, size_of_size}
use turbokit.Serialization.Writer.{
  Operation, SerializeContext, write, write_trivial, write_string, write_view, spell, choice_index,
  serialize, serialize_all, visit,
}
use turbokit.Serialization.Format.{encode, encode_all, encode_choice, encode_each, encode_size}
use turbokit.Serialization.Emits.{
  emit, Room, Emits, Emits-write, Emits-trivial, Emits-nothing, Emits-then, Emits-each,
}

pub Emits-size :
    (op : Operation) (n : ℕ) → Emits op (write_trivial op size_of_size n) (encode_size n)
Emits-size op n = Emits-trivial op size_of_size n

mutual
  unfolding serialize encode write_string

  pub serialize-Emits :
      (op : Operation) (s : Schema) (v : Value s) → Emits op (serialize op s v) (encode s v)
  serialize-Emits op (trivial w) v = Emits-trivial op w v
  serialize-Emits op string v = Emits-then op (Emits-size op (length v)) (Emits-write op v)
  serialize-Emits op (pair a b) v =
      Emits-then op (serialize-Emits op a v.0) (serialize-Emits op b v.1)
  serialize-Emits op (optional s) none = Emits-trivial op 1 0
  serialize-Emits op (optional s) (some v) =
      Emits-then op (Emits-trivial op 1 1) (serialize-Emits op s v)
  serialize-Emits op (variant s ss) (inl v) =
      Emits-then op (Emits-size op 0) (serialize-Emits op s v)
  serialize-Emits op (variant s ss) (inr v) =
      Emits-then op (Emits-size op (suc (choice_index ss v))) (visit-Emits op ss v)
  serialize-Emits op (tuple ss) v = serialize_all-Emits op ss v
  serialize-Emits op (trivial_vector w) v =
      Emits-then op (Emits-size op (length v)) (Emits-each op (Emits-trivial op w) v)
  serialize-Emits op (vector s) v =
      Emits-then op (Emits-size op (length v)) (Emits-each op (serialize-Emits op s) v)
  serialize-Emits op (dictionary k s) v =
      Emits-then op (Emits-size op (length v))
        (Emits-each op (λ e. Emits-then op (serialize-Emits op k e.0) (serialize-Emits op s e.1)) v)

  pub serialize_all-Emits :
      (op : Operation) (ss : Schemas) (v : Values ss)
      → Emits op (serialize_all op ss v) (encode_all ss v)
  serialize_all-Emits op end v = Emits-nothing op
  serialize_all-Emits op (field s ss) v =
      Emits-then op (serialize-Emits op s v.0) (serialize_all-Emits op ss v.1)

  pub visit-Emits :
      (op : Operation) (ss : Schemas) (v : Choice ss)
      → Emits op (visit op ss v) (encode_choice ss v)
  visit-Emits op end v = absurd v
  visit-Emits op (field s ss) (inl v) = serialize-Emits op s v
  visit-Emits op (field s ss) (inr v) = visit-Emits op ss v

-- For a value of every type that the library serializes, and for both contexts, `serialize` does what
-- one `write` of the encoded bytes does, where a context that counts stands below `2 ^ 64`.
pub serialize-encode :
    (op : Operation) (s : Schema) (v : Value s) (c : SerializeContext)
    → Room op c
    → serialize op s v c ≡ write op (some (encode s v)) (length (encode s v)) c
serialize-encode op s v c r = Emits.emits (serialize-Emits op s v) c r

pub length-spell : (w : ℕ) (xs : List ℕ) → length (spell w xs) ≡ w * length xs
length-spell w [] = omega arith
length-spell w (x ∷ xs) =
    length-append (to_bytes w x) (spell w xs)
    ∙ grind (arith, length-to_bytes w x, length-spell w xs)

pub spell-encode_each : (w : ℕ) (xs : List ℕ) → spell w xs ≡ encode_each (to_bytes w) xs
spell-encode_each w [] = refl
spell-encode_each w (x ∷ xs) = ap (λ l. to_bytes w x ++ l) (spell-encode_each w xs)

write_view-Emits :
    (op : Operation) (w : ℕ) (xs : List ℕ)
    → w * length xs < 2 ^ 64
    → Emits op (write_view op w xs) (encode (trivial_vector w) xs)
unfolding write_view encode
write_view-Emits op w xs h = Emits-then op (Emits-size op (length xs)) (record {
  emits = λ c r.
      ap (λ n. write op (some (spell w xs)) n c) (mod-eq_of_lt h ∙ sym (length-spell w xs))
      ∙ ap (λ l. emit op l c) (spell-encode_each w xs);
})

-- A view of trivial elements whose bytes number less than `2 ^ 64` is written as a vector of the same
-- elements is, though the one is a single copy and the other an element at a time.
pub write_view-serialize :
    (op : Operation) (w : ℕ) (xs : List ℕ) (c : SerializeContext)
    → w * length xs < 2 ^ 64
    → Room op c
    → write_view op w xs c ≡ serialize op (trivial_vector w) xs c
write_view-serialize op w xs c h r =
    Emits.emits (write_view-Emits op w xs h) c r
    ∙ sym (serialize-encode op (trivial_vector w) xs c r)
