-- ===== src/Serialization/Deliver.antt =====
-- What the callers of include/serialization.h get: the encoded bytes, where they belong, and the values
-- again.
use turbokit.Base.{
  if_true, if_false, ltb-true, ltb-false, ℕ, zero, suc, ◌+◌, ◌-◌, ◌^◌, ◌≡◌, ◌<◌, ◌≤◌, refl, sym, ap,
  ◌∙◌, none, some, List, [], ◌∷◌, ◌++◌, append-nil, length, length-append, take, drop, ltb, ◌==◌,
  if◌then◌else◌, arith, dec_lt,
}
use turbokit.Serialization.Schema.{Schemas, Values}
use turbokit.Serialization.Writer.{size_operation, write_operation, write, copy_to, ◌>>=◌ as ◌>>=ₒ◌}
use turbokit.Serialization.Reader.{ok, format_error, fault, resize, ◌>>=◌}
use turbokit.Serialization.Format.{encode_all}
use turbokit.Serialization.Emits.{Emits, take-length}
use turbokit.Serialization.Refine.{serialize_all-Emits}
use turbokit.Serialization.Valid.{AreValid}
use turbokit.Serialization.Parses.{Parses}
use turbokit.Serialization.RoundTrip.{deserialize_all-Parses, length-resize}
use turbokit.Serialization.Calls.{
  context_at, tell, count_bytes, write_at, serialize_to, serialize_to_buffer,
  serialize_to_string_view, serialize_to_unchecked, deserialize_buffer,
}

-- The memory with these bytes at the address `i`.
abbrev pub splice : ℕ → List ℕ → List ℕ → List ℕ
splice i xs memory = take i memory ++ (xs ++ drop (i + length xs) memory)

copy_to-inside :
    (i : ℕ) (xs memory : List ℕ)
    → i + length xs ≤ length memory
    → copy_to i xs memory ≡ some (splice i xs memory)
unfolding copy_to
copy_to-inside i [] memory h = ap (λ m. some m) (sym (whole i memory))
  where
    whole : (i : ℕ) (m : List ℕ) → splice i [] m ≡ m
    whole zero m = refl
    whole (suc i) [] = let e : suc i + 0 ≡ suc i = omega arith in ap (λ k. drop k []) e
    whole (suc i) (x ∷ m) =
        let e : suc i + 0 ≡ suc (i + 0) = omega arith in
        ap (λ k. x ∷ (take i m ++ drop k (x ∷ m))) e ∙ ap (λ l. x ∷ l) (whole i m)
copy_to-inside i (x ∷ xs) [] h = absurd (omega (arith, h))
copy_to-inside zero (x ∷ xs) (m ∷ memory) h =
    let e : suc (0 + length xs) ≡ 0 + suc (length xs) = omega arith in
    rw (copy_to-inside 0 xs memory (omega (arith, h)))
      (ap (λ k. some (x ∷ (xs ++ drop k (m ∷ memory)))) e)
copy_to-inside (suc i) (x ∷ xs) (m ∷ memory) h =
    let e : suc (i + suc (length xs)) ≡ suc i + suc (length xs) = omega arith in
    rw (copy_to-inside i (x ∷ xs) memory (omega (arith, h)))
      (ap (λ k. some (m ∷ (take i memory ++ (x ∷ xs ++ drop k (m ∷ memory))))) e)

drop_all : (n : ℕ) (xs : List ℕ) → length xs ≤ n → drop n xs ≡ []
drop_all zero [] h = refl
drop_all zero (x ∷ xs) h = absurd (omega (arith, h))
drop_all (suc n) [] h = refl
drop_all (suc n) (x ∷ xs) h = drop_all n xs (omega (arith, h))

-- The first pass counts the bytes of the format.
count_bytes-encode :
    (ss : Schemas) (vs : Values ss)
    → length (encode_all ss vs) < 2 ^ 64
    → count_bytes ss vs ≡ length (encode_all ss vs)
unfolding count_bytes write
count_bytes-encode ss vs h =
    ap (λ o. elim o [ none ↦ 0 | some c ↦ c.current ])
      (Emits.emits (serialize_all-Emits size_operation ss vs) (context_at 0 []) (omega arith))
    ∙ omega (arith, h)

module _ (ss : Schemas) (vs : Values ss) where
  -- Where the bytes fit, the second pass puts them at the address, and nothing else.
  write_at-inside :
      (i : ℕ) (memory : List ℕ)
      → i + length (encode_all ss vs) ≤ length memory
      → write_at i memory ss vs
        ≡ ok (record {
          memory = splice i (encode_all ss vs) memory;
          start = i;
          current = i + length (encode_all ss vs);
        })
  unfolding write_at write
  write_at-inside i memory h =
      ap (λ o. elim o [ none ↦ fault | some c ↦ ok c ])
        (Emits.emits (serialize_all-Emits write_operation ss vs) (context_at i memory) tt
          ∙ ap
              (λ l. copy_to i l memory >>=ₒ λ m.
                some (record { memory = m; start = i; current = i + length (encode_all ss vs) }))
              (take-length (encode_all ss vs))
          ∙ ap
              (λ o. o >>=ₒ λ m.
                some (record { memory = m; start = i; current = i + length (encode_all ss vs) }))
              (copy_to-inside i (encode_all ss vs) memory h))

  write_at-exact :
      (memory : List ℕ)
      → length memory ≡ length (encode_all ss vs)
      → (write_at 0 memory ss vs >>= λ c. ok c.memory) ≡ ok (encode_all ss vs)
  write_at-exact memory e =
      ap (λ o. o >>= λ c. ok c.memory) (write_at-inside 0 memory (omega (arith, e)))
      ∙ ap (λ l. ok (encode_all ss vs ++ l))
          (drop_all (0 + length (encode_all ss vs)) memory (omega (arith, e)))
      ∙ ap (λ l. ok l) (append-nil (encode_all ss vs))

  -- Serializing values of any types, of less than `2 ^ 64` bytes, into an output makes the output
  -- these bytes exactly, whatever it was before: the pass that counts and the pass that writes agree,
  -- and no byte is written outside.
  pub serialize_to-encode :
      (output : List ℕ)
      → length (encode_all ss vs) < 2 ^ 64
      → serialize_to output ss vs ≡ ok (encode_all ss vs)
  unfolding serialize_to
  serialize_to-encode output h =
      write_at-exact (resize (count_bytes ss vs) 0 output)
        (length-resize (count_bytes ss vs) 0 output ∙ count_bytes-encode ss vs h)

  -- The buffer made for values of less than `2 ^ 64` bytes, of a block that has the size asked for,
  -- holds their bytes exactly, whatever was in its memory.
  pub serialize_to_buffer-encode :
      (make_buffer : ℕ → List ℕ)
      → ((n : ℕ) → length (make_buffer n) ≡ n)
      → length (encode_all ss vs) < 2 ^ 64
      → serialize_to_buffer make_buffer ss vs ≡ ok (encode_all ss vs)
  unfolding serialize_to_buffer
  serialize_to_buffer-encode make_buffer sized h =
      write_at-exact (make_buffer (count_bytes ss vs))
        (sized (count_bytes ss vs) ∙ count_bytes-encode ss vs h)

  -- Values of less than `2 ^ 64` bytes go to the start of the target buffer, whose other bytes stay;
  -- where the buffer is too small, the call throws `DataFormatError`, and never writes past the end.
  pub serialize_to_string_view-fits :
      (buffer : List ℕ)
      → length (encode_all ss vs) < 2 ^ 64
      → serialize_to_string_view buffer ss vs ≡ (
          if ltb (length buffer) (length (encode_all ss vs))
          then format_error
          else ok (encode_all ss vs ++ drop (length (encode_all ss vs)) buffer))
  unfolding serialize_to_string_view
  serialize_to_string_view-fits buffer h =
      elim (dec_lt (length buffer) (length (encode_all ss vs))) [
        | yes small ↦
            if_true _ (
              ltb-true (length buffer) (count_bytes ss vs)
                (omega (arith, count_bytes-encode ss vs h)))
            ∙ sym (if_true _ (ltb-true (length buffer) (length (encode_all ss vs)) small))
        | no fits ↦
            if_false _ (
              ltb-false (length buffer) (count_bytes ss vs)
                (omega (arith, count_bytes-encode ss vs h)))
            ∙ ap (λ o. o >>= λ c. ok c.memory) (write_at-inside 0 buffer (omega arith))
            ∙ ap (λ n. ok (encode_all ss vs ++ drop n buffer)) (omega arith)
            ∙ sym (if_false _ (ltb-false (length buffer) (length (encode_all ss vs)) (omega arith)))
      ]

  -- Where the memory at the pointer has the room, the unchecked call puts the bytes there, leaves the
  -- rest of the memory, and returns their number.
  pub serialize_to_unchecked-splice :
      (pointer : ℕ) (memory : List ℕ)
      → pointer + length (encode_all ss vs) ≤ length memory
      → serialize_to_unchecked pointer memory ss vs
        ≡ ok (splice pointer (encode_all ss vs) memory, length (encode_all ss vs))
  unfolding serialize_to_unchecked tell
  serialize_to_unchecked-splice pointer memory h =
      ap (λ o. o >>= λ c. ok (c.memory, c.current - c.start)) (write_at-inside pointer memory h)
      ∙ ap (λ n. ok (splice pointer (encode_all ss vs) memory, n)) (omega arith)

  -- Valid values that `serialize_to` put into an output, of less than `2 ^ 64` bytes, are what
  -- `deserialize_buffer` makes of it, whatever the results held.
  pub deserialize_buffer-serialize_to :
      (output : List ℕ) (results : Values ss)
      → AreValid ss vs
      → length (encode_all ss vs) < 2 ^ 64
      → (serialize_to output ss vs >>= λ bytes. deserialize_buffer bytes ss results) ≡ ok vs
  unfolding deserialize_buffer
  deserialize_buffer-serialize_to output results h l =
      ap (λ o. o >>= λ bytes. deserialize_buffer bytes ss results) (serialize_to-encode output l)
      ∙ ap (λ o. o >>= λ p. if p.1.size == 0 then ok p.0 else format_error)
          (Parses.reads (deserialize_all-Parses ss results vs h) (encode_all ss vs) []
            (sym (append-nil (encode_all ss vs))) l)

  -- The encoded bytes of valid values, with one or more bytes after them or with one or more of the
  -- last gone, are refused with `DataFormatError`; all in less than `2 ^ 64` bytes.
  pub deserialize_buffer-refuses :
      (results : Values ss) (n x : ℕ) (rest : List ℕ)
      → AreValid ss vs
      → n < length (encode_all ss vs)
      → length (encode_all ss vs ++ (x ∷ rest)) < 2 ^ 64
      → (deserialize_buffer (encode_all ss vs ++ (x ∷ rest)) ss results ≡ format_error)
        × (deserialize_buffer (take n (encode_all ss vs)) ss results ≡ format_error)
  unfolding deserialize_buffer
  deserialize_buffer-refuses results n x rest h lt l = (
    ap (λ o. o >>= λ p. if p.1.size == 0 then ok p.0 else format_error)
          (Parses.reads (deserialize_all-Parses ss results vs h) (encode_all ss vs ++ (x ∷ rest))
            (x ∷ rest) refl l)
        ∙ if_false {b = suc (length rest) == 0} _ (ground arith),
    ap (λ o. o >>= λ p. if p.1.size == 0 then ok p.0 else format_error)
        (Parses.truncates (deserialize_all-Parses ss results vs h) n lt
          (omega (arith, l, length-append (encode_all ss vs) (x ∷ rest)))),
  )
