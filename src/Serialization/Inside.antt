-- ===== src/Serialization/Inside.antt =====
-- Calls that read and stay inside the bytes (include/serialization.h), one after another.
use turbokit.Base.{
  if_false, ltb-true, ltb-false, ℕ, zero, suc, ◌+◌, ◌^◌, ◌≡◌, ◌<◌, ◌≤◌, refl, sym, ap, ◌∙◌, List,
  [], ◌∷◌, length, length-drop, take, drop, ltb, if◌then◌else◌, arith, dec_lt,
}
use turbokit.Serialization.Schema.{same}
use turbokit.Serialization.Bytes.{of_bytes}
use turbokit.Serialization.Reader.{
  DataReader, Outcome, ok, format_error, length_error, fault, ◌>>=◌, Reading, view, advance,
  copy_from, read_trivial,
}

-- The call throws, or leaves a buffer that is these bytes less some of the first.
abbrev pub StaysInside : {A : Type 0} → List ℕ → Outcome (A × DataReader) → Type 0
StaysInside bytes (ok p) = (n : ℕ) × (n ≤ length bytes) × (p.1 ≡ view (drop n bytes))
StaysInside bytes format_error = Unit
StaysInside bytes length_error = Unit
StaysInside bytes fault = ⊥

-- It does on every buffer.
pub record IsBounded {A : Type 0} (f : Reading A) : Type 0 where
  pub bounded : (bytes : List ℕ) → length bytes < 2 ^ 64 → StaysInside bytes (f (view bytes))

drop-nil : (n : ℕ) → drop {A = ℕ} n [] ≡ []
drop-nil zero = refl
drop-nil (suc n) = refl

drop-drop : (m n : ℕ) (xs : List ℕ) → drop n (drop m xs) ≡ drop (m + n) xs
drop-drop zero n xs = ap (λ k. drop k xs) (omega arith)
drop-drop (suc m) n [] = drop-nil n ∙ sym (drop-nil (suc m + n))
drop-drop (suc m) n (x ∷ xs) =
    let e : suc (m + n) ≡ suc m + n = omega arith in drop-drop m n xs ∙ ap (λ k. drop k (x ∷ xs)) e

StaysInside-later :
    {A : Type 0} (bytes : List ℕ) (n : ℕ) (o : Outcome (A × DataReader))
    → n ≤ length bytes
    → StaysInside (drop n bytes) o
    → StaysInside bytes o
StaysInside-later bytes n (ok p) h (m, le, e) =
    (n + m, omega (arith, length-drop n bytes), e ∙ ap view (drop-drop n m bytes))
StaysInside-later bytes n format_error h s = tt
StaysInside-later bytes n length_error h s = tt
StaysInside-later bytes n fault h s = absurd s

StaysInside-then :
    {A B : Type 0} (g : A → Reading B) (bytes : List ℕ) (o : Outcome (A × DataReader))
    → ((a : A) → IsBounded (g a))
    → length bytes < 2 ^ 64
    → StaysInside bytes o
    → StaysInside bytes (o >>= λ p. g p.0 p.1)
StaysInside-then g bytes (ok p) h l (n, le, e) =
    StaysInside-later bytes n (g p.0 p.1) le
      (rw e ((h p.0).bounded (drop n bytes) (omega (arith, length-drop n bytes))))
StaysInside-then g bytes format_error h l s = tt
StaysInside-then g bytes length_error h l s = tt
StaysInside-then g bytes fault h l s = absurd s

pub IsBounded-then :
    {A B : Type 0} {f : Reading A} (g : A → Reading B)
    → IsBounded f
    → ((a : A) → IsBounded (g a))
    → IsBounded (λ r. f r >>= λ p. g p.0 p.1)
IsBounded-then {f} g hf hg = record {
  bounded = λ bytes l. StaysInside-then g bytes (f (view bytes)) hg l (hf.bounded bytes l);
}

pub IsBounded-return : {A : Type 0} (a : A) → IsBounded (λ r. ok (a, r))
IsBounded-return a = record { bounded = λ bytes l. (0, omega arith, refl) }

pub IsBounded-map :
    {A B : Type 0} {f : Reading A} (h : A → B)
    → IsBounded f
    → IsBounded (λ r. f r >>= λ p. ok (h p.0, p.1))
IsBounded-map h hf = IsBounded-then (λ a r. ok (h a, r)) hf (λ a. IsBounded-return (h a))

pub IsBounded-as :
    {A : Type 0} {f g : Reading A} → ((r : DataReader) → f r ≡ g r) → IsBounded g → IsBounded f
IsBounded-as {f} {g} same hg = record {
  bounded = λ bytes l. rw (same (view bytes)) (hg.bounded bytes l);
}

pub advance-inside :
    (n : ℕ) (bytes : List ℕ)
    → n ≤ length bytes
    → length bytes < 2 ^ 64
    → advance n (view bytes) ≡ view (drop n bytes)
unfolding advance
advance-inside n bytes h l =
    ap (λ k. record { content = drop n bytes; size = k }) (omega (arith, length-drop n bytes))

pub copy_from-inside :
    (n : ℕ) (bytes : List ℕ) → n ≤ length bytes → copy_from n bytes ≡ ok (take n bytes)
unfolding copy_from
copy_from-inside n bytes h = if_false _ (ltb-false (length bytes) n h)

-- Something that is made of `n` bytes, once they are known to be there.
pub StaysInside-run :
    {A : Type 0} (n : ℕ) (bytes : List ℕ) (x : A) (o : Outcome (A × DataReader))
    → length bytes < 2 ^ 64
    → (n ≤ length bytes → o ≡ ok (x, advance n (view bytes)))
    → StaysInside bytes (if ltb (length bytes) n then format_error else o)
StaysInside-run n bytes x o l h = elim (dec_lt (length bytes) n) [
  | yes short ↦ rw (ltb-true (length bytes) n short) tt
  | no long ↦
      rw (ltb-false (length bytes) n (omega arith), h (omega arith))
        (n, omega arith, advance-inside n bytes (omega arith) l)
]

pub IsBounded-trivial : (w : ℕ) → IsBounded (read_trivial w)
unfolding read_trivial
IsBounded-trivial w = record {
  bounded = λ bytes l.
      StaysInside-run w bytes (of_bytes (take w bytes))
        (copy_from w bytes >>= λ b. ok (of_bytes b, advance w (view bytes))) l
        (λ h.
          ap (λ o. o >>= λ b. ok (of_bytes b, advance w (view bytes)))
            (copy_from-inside w bytes h));
}
