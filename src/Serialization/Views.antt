-- ===== src/Serialization/Views.antt =====
-- Strings and vectors of trivial elements, which are read as views of the buffer.
use turbokit.Base.{
  All, if_true, if_false, ltb-true, ltb-false, ℕ, ◌-◌, ◌*◌, ◌%◌, ◌^◌, ◌≡◌, ◌<◌, refl, sym, ap, ◌∙◌,
  List, [], ◌∷◌, ◌++◌, append_assoc, length, length-append, take, drop, ltb, if◌then◌else◌, arith,
}
use native.Mathlib.Nat.{mod-eq_of_lt}
use mathlib.Core.Path.{ap₂}
use turbokit.Serialization.Schema.{string, trivial_vector}
use turbokit.Serialization.Bytes.{
  to_bytes, of_bytes, length-to_bytes, of_bytes-to_bytes, size_of_size,
}
use turbokit.Serialization.Writer.{spell}
use turbokit.Serialization.Format.{encode, encode_size}
use turbokit.Serialization.Refine.{length-spell, spell-encode_each}
use turbokit.Serialization.Reader.{
  DataReader, StringView, Outcome, ok, format_error, ◌>>=◌, Reading, view, advance, copy_from,
  read_trivial, read_string, read_string_view, copy_items, cut, resize, deserialize,
}
use turbokit.Serialization.Valid.{IsSize, IsValid}
use turbokit.Serialization.Parses.{
  Parses, Parses-then, Parses-as, Parses-trivial, bind_assoc, copy_from-code, drop-append,
  take-append, advance-view, length-take_le,
}

pub Parses-size : (n : ℕ) → IsSize n → Parses (read_trivial size_of_size) n (encode_size n)
Parses-size n h = Parses-trivial size_of_size n h

-- A view of a run of `m n` bytes, after their count `n`, and something made of it.
module _ {A : Type 0} (m : ℕ → ℕ) (k : StringView → Outcome A) where
  abbrev pub check_view : ℕ → Reading StringView
  check_view n r =
      if ltb r.size (m n)
      then format_error
      else ok (record { first = r.content; count = n }, advance (m n) r)

  abbrev pub use_view : StringView × DataReader → Outcome (A × DataReader)
  use_view p = k p.0 >>= λ x. ok (x, p.1)

  pub Parses-check :
      (n : ℕ) (code : List ℕ) (x : A)
      → length code ≡ m n
      → ((rest : List ℕ) → k (record { first = code ++ rest; count = n }) ≡ ok x)
      → Parses (λ r. check_view n r >>= use_view) x code
  Parses-check n code x e h = record {
    reads = λ bytes rest eb l.
        ap (λ o. o >>= use_view)
          (if_false _ (
            ltb-false (length bytes) (m n)
              (omega (arith, e, ap length eb, length-append code rest))))
        ∙ ap (λ b. use_view (record { first = b; count = n }, advance (m n) (view bytes))) eb
        ∙ ap (λ o. o >>= λ y. ok (y, advance (m n) (view bytes))) (h rest)
        ∙ rw (← e) (ap (λ r. ok (x, r)) (advance-view bytes code rest eb l));
    truncates = λ j lt l.
        ap (λ o. o >>= use_view)
          (if_true _ (
            ltb-true (length (take j code)) (m n)
              (omega (arith, length-take_le j code (omega arith)))));
  }

  Parses-view :
      (n : ℕ) (code : List ℕ) (x : A)
      → IsSize n
      → length code ≡ m n
      → ((rest : List ℕ) → k (record { first = code ++ rest; count = n }) ≡ ok x)
      → Parses
          (λ r. read_trivial size_of_size r >>= (λ p. check_view p.0 p.1) >>= use_view)
          x
          (encode_size n ++ code)
  Parses-view n code x small e h =
      Parses-as (λ r. bind_assoc (read_trivial size_of_size r) (λ p. check_view p.0 p.1) use_view)
        (Parses-then (λ c r. check_view c r >>= use_view) (Parses-size n small)
          (Parses-check n code x e h))

pub Parses-string :
    (target v : List ℕ) → IsSize (length v) → Parses (deserialize string target) v (encode string v)
unfolding deserialize encode read_string
Parses-string target v small =
    Parses-view (λ n. n) (λ w. copy_from w.count w.first) (length v) v v small refl
      (λ rest. copy_from-code v rest)

cut-spell :
    (w : ℕ) (xs rest : List ℕ)
    → All (λ x. x < 256 ^ w) xs
    → cut w (length xs) (spell w xs ++ rest) ≡ xs
unfolding cut
cut-spell w [] rest h = refl
cut-spell w (x ∷ xs) rest h = rw (append_assoc (to_bytes w x) (spell w xs) rest) (
    ap₂ ◌∷◌ (ap of_bytes (taken w x (spell w xs ++ rest)) ∙ of_bytes-to_bytes w x h.0)
      (ap (cut w (length xs)) (dropped w x (spell w xs ++ rest)) ∙ cut-spell w xs rest h.1))
  where
    taken : (w x : ℕ) (l : List ℕ) → take w (to_bytes w x ++ l) ≡ to_bytes w x
    taken w x l =
        ap (λ n. take n (to_bytes w x ++ l)) (sym (length-to_bytes w x))
        ∙ take-append (to_bytes w x) l

    dropped : (w x : ℕ) (l : List ℕ) → drop w (to_bytes w x ++ l) ≡ l
    dropped w x l =
        ap (λ n. drop n (to_bytes w x ++ l)) (sym (length-to_bytes w x))
        ∙ drop-append (to_bytes w x) l

copy_items-spell :
    (w : ℕ) (xs rest target : List ℕ)
    → w * length xs < 2 ^ 63
    → All (λ x. x < 256 ^ w) xs
    → copy_items w (record { first = spell w xs ++ rest; count = length xs }) target ≡ ok xs
unfolding copy_items
copy_items-spell w xs rest target small h =
    if_false _ (ltb-false (2 ^ 63 - 1) (w * length xs) (omega arith))
    ∙ ap (λ o. o >>= finish)
        (ap (λ n. copy_from n (spell w xs ++ rest))
            (mod-eq_of_lt (omega (arith, small)) ∙ sym (length-spell w xs))
          ∙ copy_from-code (spell w xs) rest)
    ∙ ap (λ l. ok l) (cut-spell w xs _ h)
  where
    finish : List ℕ → Outcome (List ℕ)
    finish bytes =
        ok
          (cut w (length xs) (bytes ++ drop (length bytes) (spell w (resize (length xs) 0 target))))

pub Parses-trivial_vector :
    (w : ℕ) (target v : List ℕ)
    → IsValid (trivial_vector w) v
    → Parses (deserialize (trivial_vector w) target) v (encode (trivial_vector w) v)
unfolding deserialize encode read_string_view
Parses-trivial_vector w target v h = rw (← spell-encode_each w v) (
    Parses-view (λ n. w * n % 2 ^ 64) (λ u. copy_items w u target) (length v) (spell w v) v h.0
      (length-spell w v ∙ sym (mod-eq_of_lt (omega (arith, h.1))))
      (λ rest. copy_items-spell w v rest target h.1 h.2))
