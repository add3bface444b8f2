-- ===== src/Serialization/Emits.antt =====
-- What the two contexts of the writer do with a run of bytes, and with one run after another.
use turbokit.Base.{
  ℕ, zero, suc, ◌+◌, ◌^◌, ◌≡◌, ◌<◌, refl, sym, ap, ◌∙◌, Option, none, some, Option-cases, List, [],
  ◌∷◌, ◌++◌, length, length-append, take, inl, inr, arith,
}
use turbokit.Serialization.Bytes.{to_bytes, length-to_bytes}
use turbokit.Serialization.Writer.{
  Operation, size_operation, write_operation, SerializeContext, Writing, ◌>=>◌, copy_to, write,
  write_trivial, write_each, ◌>>=◌,
}
use turbokit.Serialization.Format.{encode_each}

abbrev pub emit : Operation → List ℕ → Writing
emit op ys = write op (some ys) (length ys)

-- The address of a context that counts bytes is below `2 ^ 64`.
abbrev pub Room : Operation → SerializeContext → Type 0
Room size_operation c = c.current < 2 ^ 64
Room write_operation c = Unit

-- The call writes these bytes, wherever the context stands.
pub record Emits (op : Operation) (f : Writing) (ys : List ℕ) : Type 0 where
  pub emits : (c : SerializeContext) → Room op c → f c ≡ emit op ys c

pub take-length : (ys : List ℕ) → take (length ys) ys ≡ ys
take-length [] = refl
take-length (b ∷ ys) = ap (λ r. b ∷ r) (take-length ys)

copy_to-suc :
    (i : ℕ) (ys : List ℕ) (m : ℕ) (memory : List ℕ)
    → copy_to (suc i) ys (m ∷ memory)
      ≡ elim (copy_to i ys memory) [ none ↦ none | some rest ↦ some (m ∷ rest) ]
unfolding copy_to
copy_to-suc i [] m memory = refl
copy_to-suc i (b ∷ ys) m memory = refl

-- Copying one run and then the next is copying both at once.
pub copy_to-append :
    (i : ℕ) (xs ys memory : List ℕ)
    → copy_to i (xs ++ ys) memory
      ≡ (copy_to i xs memory >>= λ rest. copy_to (i + length xs) ys rest)
unfolding copy_to
copy_to-append i [] ys memory = ap (λ k. copy_to k ys memory) (omega arith)
copy_to-append i (a ∷ xs) ys [] = refl
copy_to-append zero (a ∷ xs) ys (m ∷ memory) = elim (Option-cases (copy_to 0 xs memory)) [
  | inl e ↦ rw (copy_to-append 0 xs ys memory, e) refl
  | inr (rest, e) ↦
      rw (copy_to-append 0 xs ys memory, e)
        (sym (copy_to-suc (0 + length xs) ys a rest)
          ∙ ap (λ k. copy_to k ys (a ∷ rest)) (omega arith))
]
copy_to-append (suc i) (a ∷ xs) ys (m ∷ memory) = elim (Option-cases (copy_to i (a ∷ xs) memory)) [
  | inl e ↦ rw (copy_to-append i (a ∷ xs) ys memory, e) refl
  | inr (rest, e) ↦
      rw (copy_to-append i (a ∷ xs) ys memory, e)
        (sym (copy_to-suc (i + length (a ∷ xs)) ys m rest)
          ∙ ap (λ k. copy_to k ys (m ∷ rest)) (omega arith))
]

pub Emits-write : (op : Operation) (ys : List ℕ) → Emits op (emit op ys) ys
Emits-write op ys = record { emits = λ c r. refl }

pub Emits-trivial : (op : Operation) (w n : ℕ) → Emits op (write_trivial op w n) (to_bytes w n)
unfolding write_trivial
Emits-trivial op w n = record {
  emits = λ c r. ap (λ k. write op (some (to_bytes w n)) k c) (sym (length-to_bytes w n));
}

nothing : (op : Operation) (c : SerializeContext) → Room op c → some c ≡ emit op [] c
unfolding write copy_to
nothing size_operation c r = ap (λ k. some (record c { current = k })) (omega (arith, r))
nothing write_operation c r = ap (λ k. some (record c { current = k })) (omega arith)

pub Emits-nothing : (op : Operation) → Emits op some []
Emits-nothing op = record { emits = nothing op }

-- The context after `n` more bytes, which leave this memory.
abbrev moved : SerializeContext → ℕ → List ℕ → Option SerializeContext
moved c n memory = some (record c { memory = memory; current = c.current + n })

emit-write :
    (xs : List ℕ) (c : SerializeContext)
    → emit write_operation xs c ≡ (copy_to c.current xs c.memory >>= moved c (length xs))
unfolding write
emit-write xs c = ap (λ l. copy_to c.current l c.memory >>= moved c (length xs)) (take-length xs)

-- One run after another is both at once, for a context that counts and for one that copies.
emit-append :
    (op : Operation) (xs ys : List ℕ) (c : SerializeContext)
    → (emit op xs >=> emit op ys) c ≡ emit op (xs ++ ys) c
unfolding write
emit-append size_operation xs ys c =
    ap (λ k. some (record c { current = k })) (omega (arith, length-append xs ys))
emit-append write_operation xs ys c =
    ap (λ o. o >>= emit write_operation ys) (emit-write xs c)
    ∙ both (copy_to c.current xs c.memory)
    ∙ sym (
        emit-write (xs ++ ys) c
        ∙ ap (λ o. o >>= moved c (length (xs ++ ys))) (copy_to-append c.current xs ys c.memory))
  where
    both :
        (o : Option (List ℕ))
        → (o >>= moved c (length xs) >>= emit write_operation ys) ≡ (
            o >>= (λ rest. copy_to (c.current + length xs) ys rest) >>= moved c (length (xs ++ ys)))
    both none = refl
    both (some rest) =
        emit-write ys (record c { memory = rest; current = c.current + length xs })
        ∙ ap
            (λ n. copy_to (c.current + length xs) ys rest >>= λ memory.
              some (record c { memory = memory; current = n }))
            (omega (arith, length-append xs ys))

Room-emit :
    (op : Operation) (xs : List ℕ) (c c' : SerializeContext) → emit op xs c ≡ some c' → Room op c'
unfolding write
Room-emit size_operation xs c c' e = ground arith
Room-emit write_operation xs c c' e = tt

cong_after :
    {A B : Type 0} (o : Option A) (f g : A → Option B)
    → ((a : A) → o ≡ some a → f a ≡ g a)
    → (o >>= f) ≡ (o >>= g)
cong_after none f g h = refl
cong_after (some a) f g h = h a refl

pub Emits-then :
    (op : Operation) {f g : Writing} {xs ys : List ℕ}
    → Emits op f xs
    → Emits op g ys
    → Emits op (f >=> g) (xs ++ ys)
Emits-then op {f} {g} {xs} {ys} hf hg = record {
  emits = λ c r.
      ap (λ o. o >>= g) (hf.emits c r)
      ∙ cong_after (emit op xs c) g (emit op ys) (λ c' e. hg.emits c' (Room-emit op xs c c' e))
      ∙ emit-append op xs ys c;
}

pub Emits-each :
    (op : Operation) {A : Type 0} {f : A → Writing} {code : A → List ℕ}
    → ((a : A) → Emits op (f a) (code a))
    → (xs : List A) → Emits op (write_each f xs) (encode_each code xs)
Emits-each op h [] = Emits-nothing op
Emits-each op h (x ∷ xs) = Emits-then op (h x) (Emits-each op h xs)
