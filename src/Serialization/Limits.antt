-- ===== src/Serialization/Limits.antt =====
-- What a reader makes of bytes that no `serialize` has written: an index of no alternative, a count whose
-- product wraps, and a `consume` of more than there is.
use turbokit.Base.{
  if_true, if_false, ltb-true, ltb-false, ℕ, zero, suc, ◌+◌, ◌-◌, ◌*◌, ◌%◌, ◌^◌, ◌≡◌, ◌<◌, ◌≤◌,
  refl, ap, ◌∙◌, none, List, ◌++◌, length, length-append, length-drop, drop, arith,
}
use turbokit.Serialization.Schema.{Schema, Schemas, variant, trivial_vector, end, field, Value}
use turbokit.Serialization.Bytes.{of_bytes, size_of_size}
use turbokit.Serialization.Format.{encode_size}
use turbokit.Serialization.Reader.{
  DataReader, ok, length_error, fault, ◌>>=◌, view, advance, copy_from, consume, copy_items,
  read_trivial, read_string_view, deserialize, deserialize_variant_helper,
}
use turbokit.Serialization.Parses.{Parses}
use turbokit.Serialization.Inside.{advance-inside}
use turbokit.Serialization.Views.{Parses-size, check_view, use_view}
use turbokit.Serialization.Valid.{IsSize}
use turbokit.Serialization.RoundTrip.{
  read_variant, read_variant-later, found_or, shift_choice, deserialize_variant_helper-later,
}

-- The number of alternatives.
abbrev pub variant_size : Schemas → ℕ
variant_size end = 0
variant_size (field s ss) = suc (variant_size ss)

helper-unknown :
    (ss : Schemas) (i : ℕ) (r : DataReader)
    → variant_size ss ≤ i
    → deserialize_variant_helper ss i r ≡ ok (none, r)
unfolding deserialize
helper-unknown end i r h = refl
helper-unknown (field s ss) zero r h = absurd (omega arith)
helper-unknown (field s ss) (suc i) r h =
    deserialize_variant_helper-later s ss i r
    ∙ ap (λ o. o >>= λ q. ok (shift_choice s ss q.0, q.1))
        (helper-unknown ss i r (omega (arith, h)))

-- A variant whose index is that of no alternative is accepted, the index being all that is read of it,
-- and the object keeps its value.
pub deserialize-variant_unknown :
    (s : Schema) (ss : Schemas) (target : Value (variant s ss)) (i : ℕ) (rest : List ℕ)
    → variant_size ss ≤ i
    → IsSize (suc i)
    → length (encode_size (suc i) ++ rest) < 2 ^ 64
    → deserialize (variant s ss) target (view (encode_size (suc i) ++ rest))
      ≡ ok (target, view rest)
unfolding deserialize
deserialize-variant_unknown s ss target i rest h small l =
    ap (λ o. o >>= λ p. read_variant s ss target p.0 p.1)
      (Parses.reads (Parses-size (suc i) small) (encode_size (suc i) ++ rest) rest refl l)
    ∙ read_variant-later s ss target i (view rest)
    ∙ ap (λ o. o >>= λ q. ok (found_or s ss target q.0, q.1)) (helper-unknown ss i (view rest) h)

-- A count of elements whose bytes number `2 ^ 64` or more, and by the wrap-around of their product no
-- more than there are bytes behind it, is accepted by `read_string_view`: the view has all these
-- elements, past the end of the bytes. As the count of a container of trivial elements it makes the
-- container throw.
pub deserialize-wrapped :
    (w n : ℕ) (target rest : List ℕ)
    → 2 ^ 64 ≤ w * n
    → w * n % 2 ^ 64 ≤ length rest
    → IsSize n
    → length (encode_size n ++ rest) < 2 ^ 64
    → (read_string_view w (view (encode_size n ++ rest))
        ≡ ok (record { first = rest; count = n }, view (drop (w * n % 2 ^ 64) rest)))
      × (deserialize (trivial_vector w) target (view (encode_size n ++ rest)) ≡ length_error)
unfolding deserialize read_string_view copy_items
deserialize-wrapped w n target rest wide fits small l =
    let count : read_trivial size_of_size (view (encode_size n ++ rest)) ≡ ok (n, view rest) =
      Parses.reads (Parses-size n small) (encode_size n ++ rest) rest refl l in
    let seen : read_string_view w (view (encode_size n ++ rest))
        ≡ ok (record { first = rest; count = n }, view (drop (w * n % 2 ^ 64) rest)) =
      ap (λ o. o >>= λ p. check_view (λ c. w * c % 2 ^ 64) (λ v. copy_items w v target) p.0 p.1)
        count
      ∙ if_false _ (ltb-false (length rest) (w * n % 2 ^ 64) fits)
      ∙ ap (λ r. ok (record { first = rest; count = n }, r))
          (advance-inside (w * n % 2 ^ 64) rest fits
            (omega (arith, l, length-append (encode_size n) rest))) in
    (
      seen,
      ap (λ o. o >>= use_view (λ c. w * c % 2 ^ 64) (λ v. copy_items w v target)) seen
          ∙ ap (λ o. o >>= λ x. ok (x, view (drop (w * n % 2 ^ 64) rest)))
              (if_true _ (ltb-true (2 ^ 63 - 1) (w * n) (omega arith))),
    )

-- Consuming more bytes than there are leaves a buffer that is believed to be huge, from which the next
-- read of a trivial value goes past the end of the memory.
pub consume-fault :
    (n w : ℕ) (bytes : List ℕ)
    → length bytes < n
    → n < 2 ^ 64
    → 0 < w
    → w + n ≤ 2 ^ 64 + length bytes
    → read_trivial w (consume n (view bytes)).1 ≡ fault
unfolding read_trivial consume advance copy_from
consume-fault n w bytes past small pos h =
    if_false _ (ltb-false ((length bytes + 2 ^ 64 - n) % 2 ^ 64) w (omega arith))
    ∙ ap (λ o. o >>= λ b. ok (of_bytes b, advance w (advance n (view bytes))))
        (if_true _ (ltb-true (length (drop n bytes)) w (omega (arith, length-drop n bytes))))
