-- ===== src/Serialization/Parses.antt =====
-- What a reader does on a run of bytes that is all there, and on one that is cut short.
use turbokit.Base.{
  if_true, if_false, ltb-true, ltb-false, ℕ, zero, suc, ◌-◌, ◌^◌, ◌≡◌, ◌<◌, ◌≤◌, refl, ap, ◌∙◌,
  List, [], ◌∷◌, ◌++◌, append_assoc, length, length-append, take, drop, ltb, if◌then◌else◌, arith,
  dec_lt,
}
use mathlib.Core.Path.{subst}
use turbokit.Serialization.Bytes.{to_bytes, of_bytes, length-to_bytes, of_bytes-to_bytes}
use turbokit.Serialization.Reader.{
  DataReader, Outcome, ok, format_error, length_error, fault, ◌>>=◌, Reading, view, advance,
  copy_from, read_trivial,
}

-- On the bytes `code`, the call yields `v` and leaves what follows; on a part of them that lacks the
-- end, it throws.
pub record Parses {A : Type 0} (f : Reading A) (v : A) (code : List ℕ) : Type 0 where
  pub reads :
      (bytes rest : List ℕ)
      → bytes ≡ code ++ rest
      → length bytes < 2 ^ 64
      → f (view bytes) ≡ ok (v, view rest)
  pub truncates :
      (n : ℕ) → n < length code → length code < 2 ^ 64 → f (view (take n code)) ≡ format_error

pub take-append : (xs ys : List ℕ) → take (length xs) (xs ++ ys) ≡ xs
take-append [] ys = refl
take-append (x ∷ xs) ys = ap (λ l. x ∷ l) (take-append xs ys)

pub drop-append : (xs ys : List ℕ) → drop (length xs) (xs ++ ys) ≡ ys
drop-append [] ys = refl
drop-append (x ∷ xs) ys = drop-append xs ys

take-append_short : (n : ℕ) (xs ys : List ℕ) → n < length xs → take n (xs ++ ys) ≡ take n xs
take-append_short n [] ys h = absurd (omega arith)
take-append_short zero (x ∷ xs) ys h = refl
take-append_short (suc n) (x ∷ xs) ys h = ap (λ l. x ∷ l) (take-append_short n xs ys (omega arith))

take-append_long :
    (n : ℕ) (xs ys : List ℕ) → length xs ≤ n → take n (xs ++ ys) ≡ xs ++ take (n - length xs) ys
take-append_long n [] ys h = ap (λ k. take k ys) (omega arith)
take-append_long zero (x ∷ xs) ys h = absurd (omega arith)
take-append_long (suc n) (x ∷ xs) ys h =
    ap (λ l. x ∷ l)
      (take-append_long n xs ys (omega arith) ∙ ap (λ k. xs ++ take k ys) (omega arith))

pub length-take_le : (n : ℕ) (xs : List ℕ) → n ≤ length xs → length (take n xs) ≡ n
length-take_le zero xs h = refl
length-take_le (suc n) [] h = absurd (omega arith)
length-take_le (suc n) (x ∷ xs) h = ap suc (length-take_le n xs (omega arith))

pub bind_assoc :
    {A B C : Type 0} (m : Outcome A) (f : A → Outcome B) (g : B → Outcome C)
    → (m >>= f >>= g) ≡ (m >>= λ a. f a >>= g)
bind_assoc (ok a) f g = refl
bind_assoc format_error f g = refl
bind_assoc length_error f g = refl
bind_assoc fault f g = refl

pub advance-view :
    (bytes code rest : List ℕ)
    → bytes ≡ code ++ rest
    → length bytes < 2 ^ 64
    → advance (length code) (view bytes) ≡ view rest
unfolding advance
advance-view bytes code rest e h = rw e (
    ap (λ n. record { content = drop (length code) (code ++ rest); size = n })
      (omega (arith, length-append code rest, ap length e))
    ∙ ap (λ l. record { content = l; size = length rest }) (drop-append code rest))

pub copy_from-code : (code rest : List ℕ) → copy_from (length code) (code ++ rest) ≡ ok code
unfolding copy_from
copy_from-code code rest =
    if_false _
      (ltb-false (length (code ++ rest)) (length code) (omega (arith, length-append code rest)))
    ∙ ap (λ l. ok l) (take-append code rest)

-- Reading one thing and then another.
pub Parses-then :
    {A B : Type 0} {f : Reading A} (g : A → Reading B) {x : A} {y : B} {cs ds : List ℕ}
    → Parses f x cs
    → Parses (g x) y ds
    → Parses (λ r. f r >>= λ p. g p.0 p.1) y (cs ++ ds)
Parses-then {A} {B} {f} g {x} {y} {cs} {ds} hf hg = record {
  reads = λ bytes rest e h.
      ap (λ o. o >>= λ p. g p.0 p.1) (hf.reads bytes (ds ++ rest) (e ∙ append_assoc cs ds rest) h)
      ∙ hg.reads (ds ++ rest) rest refl (
          omega (
            arith,
            ap length e,
            length-append (cs ++ ds) rest,
            length-append cs ds,
            length-append ds rest,
          ));
  truncates = λ n lt h. elim (dec_lt n (length cs)) [
    | yes short ↦
        ap (λ l. f (view l) >>= λ p. g p.0 p.1) (take-append_short n cs ds short)
        ∙ ap (λ o. o >>= λ p. g p.0 p.1) (hf.truncates n short (omega (arith, length-append cs ds)))
    | no long ↦
        ap (λ o. o >>= λ p. g p.0 p.1)
          (hf.reads (take n (cs ++ ds)) (take (n - length cs) ds)
            (take-append_long n cs ds (omega arith))
            (omega (arith, length-take_le n (cs ++ ds) (omega arith))))
        ∙ hg.truncates (n - length cs) (omega (arith, length-append cs ds))
            (omega (arith, length-append cs ds))
  ];
}

-- Reading one thing, and making another of it.
pub Parses-map :
    {A B : Type 0} {f : Reading A} (h : A → B) {x : A} {code : List ℕ}
    → Parses f x code
    → Parses (λ r. f r >>= λ p. ok (h p.0, p.1)) (h x) code
Parses-map h hf = record {
  reads = λ bytes rest e l. ap (λ o. o >>= λ p. ok (h p.0, p.1)) (hf.reads bytes rest e l);
  truncates = λ n lt l. ap (λ o. o >>= λ p. ok (h p.0, p.1)) (hf.truncates n lt l);
}

pub Parses-nothing : {A : Type 0} (v : A) → Parses (λ r. ok (v, r)) v []
Parses-nothing v = record {
  reads = λ bytes rest e l. ap (λ b. ok (v, view b)) e;
  truncates = λ n lt l. absurd (omega arith);
}

-- The same, read in another way.
pub Parses-as :
    {A : Type 0} {f g : Reading A} {v : A} {code : List ℕ}
    → ((r : DataReader) → f r ≡ g r)
    → Parses g v code
    → Parses f v code
Parses-as same hg = record {
  reads = λ bytes rest e l. same (view bytes) ∙ hg.reads bytes rest e l;
  truncates = λ n lt l. same (view (take n _)) ∙ hg.truncates n lt l;
}

-- A check of the size, a copy of that many bytes, and the rest of the buffer.
pub Parses-run :
    {A : Type 0} (h : List ℕ → A) (n : ℕ) (code : List ℕ)
    → length code ≡ n
    → Parses
        (λ r.
          if ltb r.size n
          then format_error
          else (copy_from n r.content >>= λ bytes. ok (h bytes, advance n r)))
        (h code)
        code
Parses-run h n code e = record {
  reads = λ bytes rest eb l.
      if_false _ (ltb-false (length bytes) n (omega (arith, ap length eb, length-append code rest)))
      ∙ rw (← e) (
          ap (λ b. copy_from (length code) b >>= λ c. ok (h c, advance (length code) (view bytes)))
            eb
          ∙ ap (λ o. o >>= λ c. ok (h c, advance (length code) (view bytes)))
              (copy_from-code code rest)
          ∙ ap (λ r. ok (h code, r)) (advance-view bytes code rest eb l));
  truncates = λ k lt l.
      if_true _
        (ltb-true (length (take k code)) n (omega (arith, length-take_le k code (omega arith))));
}

pub Parses-trivial : (w n : ℕ) → n < 256 ^ w → Parses (read_trivial w) n (to_bytes w n)
unfolding read_trivial
Parses-trivial w n h =
    subst (λ v. Parses (read_trivial w) v (to_bytes w n)) (of_bytes-to_bytes w n h)
      (Parses-run of_bytes w (to_bytes w n) (length-to_bytes w n))
