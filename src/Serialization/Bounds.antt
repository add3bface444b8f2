-- ===== src/Serialization/Bounds.antt =====
-- How far a reader goes, on any bytes at all.
use turbokit.Base.{
  ◌⊎◌, inr, ◌∙◌, Bool-cases, dec_lt, if_true, if_false, ltb-true, arith, ℕ, zero, suc, ◌-◌, ◌*◌,
  ◌%◌, ◌^◌, ◌≡◌, ◌<◌, ◌≤◌, refl, sym, ap, Bool, false, true, none, some, List, [], ◌∷◌, ◌++◌,
  length, take, drop, ltb, ◌==◌, if◌then◌else◌, inl,
}
use turbokit.Serialization.Schema.{
  Schema, Schemas, trivial, string, pair, optional, variant, tuple, trivial_vector, vector,
  dictionary, end, field, Value, Values, default_value, same,
}
use turbokit.Serialization.Bytes.{size_of_size}
use turbokit.Serialization.Reader.{
  DataReader, StringView, Outcome, ok, format_error, length_error, ◌>>=◌, Reading, view, advance,
  copy_from, read_trivial, read_string, cut, read_string_view, copy_items, resize, read_each,
  read_entries, emplace, deserialize, deserialize_all, deserialize_variant_helper,
}
use mathlib.Core.Path.{subst}
use turbokit.Serialization.RoundTrip.{read_optional, read_variant, found_or, shift_choice}
use turbokit.Serialization.Writer.{spell}
use turbokit.Serialization.Views.{check_view, use_view}
use turbokit.Serialization.Parses.{bind_assoc}
use turbokit.Serialization.Inside.{
  StaysInside, IsBounded, IsBounded-then, IsBounded-return, IsBounded-map, IsBounded-as,
  copy_from-inside, StaysInside-run, IsBounded-trivial,
}

check_bind :
    {A B : Type 0} (b : Bool) (a : A) (f : A → Outcome B)
    → ((if b then format_error else ok a) >>= f) ≡ (if b then format_error else f a)
check_bind true a f = refl
check_bind false a f = refl

refused :
    {A : Type 0} (bytes : List ℕ) (b : Bool) (o : Outcome (A × DataReader))
    → o ≡ length_error
    → StaysInside bytes (if b then format_error else o)
refused bytes true o e = tt
refused bytes false o e = rw e tt

-- A view of bytes that are there, and something made of it.
IsBounded-view :
    {A : Type 0} (m : ℕ → ℕ) (k : StringView → Outcome A) (made : ℕ → List ℕ → A)
    → ((n : ℕ) (bytes : List ℕ)
        → m n ≤ length bytes
        → (k (record { first = bytes; count = n }) ≡ ok (made n bytes))
          ⊎ (k (record { first = bytes; count = n }) ≡ length_error))
    → IsBounded
        (λ r. read_trivial size_of_size r >>= (λ p. check_view m k p.0 p.1) >>= use_view m k)
IsBounded-view m k made h =
    IsBounded-as
      (λ r. bind_assoc (read_trivial size_of_size r) (λ p. check_view m k p.0 p.1) (use_view m k))
      (IsBounded-then (λ n r. check_view m k n r >>= use_view m k) (IsBounded-trivial size_of_size)
        (λ n. record {
          bounded = λ bytes l.
              let p : StringView × DataReader =
                (record { first = bytes; count = n }, advance (m n) (view bytes)) in
              subst (StaysInside bytes)
                (sym (check_bind (ltb (length bytes) (m n)) p (use_view m k)))
                (elim (dec_lt (length bytes) (m n)) [
                  | yes short ↦
                      rw (if_true (use_view m k p) (ltb-true (length bytes) (m n) short)) tt
                  | no long ↦ elim (h n bytes (omega arith)) [
                    | inl e ↦
                        StaysInside-run (m n) bytes (made n bytes) (use_view m k p) l
                          (λ le. ap (λ o. o >>= λ x. ok (x, p.1)) e)
                    | inr e ↦
                        refused bytes (ltb (length bytes) (m n)) (use_view m k p)
                          (ap (λ o. o >>= λ x. ok (x, p.1)) e)
                  ]
                ]);
        }))

IsBounded-string : (target : List ℕ) → IsBounded (deserialize string target)
unfolding deserialize read_string
IsBounded-string target =
    IsBounded-view (λ n. n) (λ v. copy_from v.count v.first) take
      (λ n bytes h. inl (copy_from-inside n bytes h))

IsBounded-trivial_vector :
    (w : ℕ) (target : List ℕ) → IsBounded (deserialize (trivial_vector w) target)
unfolding deserialize read_string_view copy_items
IsBounded-trivial_vector w target =
    IsBounded-view (λ n. w * n % 2 ^ 64) (λ v. copy_items w v target)
      (λ n bytes. finish n (take (w * n % 2 ^ 64) bytes))
      (λ n bytes h. elim (Bool-cases (ltb (2 ^ 63 - 1) (w * n))) [
        | inl large ↦ inr (if_true _ large)
        | inr small ↦ inl (
            if_false _ small
            ∙ ap (λ o. o >>= λ b. ok (finish n b)) (copy_from-inside (w * n % 2 ^ 64) bytes h))
      ])
  where
    finish : ℕ → List ℕ → List ℕ
    finish n b = cut w n (b ++ drop (length b) (spell w (resize n 0 target)))

IsBounded-each :
    {A : Type 0} (f : A → Reading A)
    → ((a : A) → IsBounded (f a))
    → (xs : List A) → IsBounded (read_each f xs)
unfolding read_each
IsBounded-each f h [] = IsBounded-return []
IsBounded-each f h (x ∷ xs) =
    IsBounded-then (λ y r. read_each f xs r >>= λ q. ok (y ∷ q.0, q.1)) (h x)
      (λ y. IsBounded-map (λ ys. y ∷ ys) (IsBounded-each f h xs))

IsBounded-entries :
    {K V : Type 0} (eq : K → K → Bool) (read_key : Reading K) (read_value : Reading V)
    → IsBounded read_key
    → IsBounded read_value
    → (n : ℕ) (es : List (K × V)) → IsBounded (read_entries eq read_key read_value n es)
unfolding read_entries
IsBounded-entries eq read_key read_value hk hv zero es = IsBounded-return es
IsBounded-entries eq read_key read_value hk hv (suc n) es =
    IsBounded-then
      (λ k r. read_value r >>= λ q. read_entries eq read_key read_value n (emplace eq k q.0 es) q.1)
      hk
      (λ k.
        IsBounded-then (λ v r. read_entries eq read_key read_value n (emplace eq k v es) r) hv
          (λ v. IsBounded-entries eq read_key read_value hk hv n (emplace eq k v es)))

IsBounded-if :
    {A : Type 0} (b : Bool) {f g : Reading A}
    → IsBounded f
    → IsBounded g
    → IsBounded (λ r. if b then f r else g r)
IsBounded-if true hf hg = hf
IsBounded-if false hf hg = hg

mutual
  unfolding deserialize

  deserialize-IsBounded : (s : Schema) (target : Value s) → IsBounded (deserialize s target)
  deserialize-IsBounded (trivial w) target = IsBounded-trivial w
  deserialize-IsBounded string target = IsBounded-string target
  deserialize-IsBounded (pair a b) target =
      IsBounded-then (λ x r. deserialize b target.1 r >>= λ q. ok ((x, q.0), q.1))
        (deserialize-IsBounded a target.0)
        (λ x. IsBounded-map (λ y. (x, y)) (deserialize-IsBounded b target.1))
  deserialize-IsBounded (optional s) target =
      IsBounded-then (read_optional s) (IsBounded-trivial 1) (λ flag.
        IsBounded-if (flag == 0) (IsBounded-return none)
          (IsBounded-map (λ x. some x) (deserialize-IsBounded s (default_value s))))
  deserialize-IsBounded (variant s ss) target =
      IsBounded-then (read_variant s ss target) (IsBounded-trivial size_of_size) (λ index.
        IsBounded-if (index == 0)
          (IsBounded-map (λ x. inl x) (deserialize-IsBounded s (default_value s)))
          (IsBounded-map (found_or s ss target)
            (deserialize_variant_helper-IsBounded ss (index - 1))))
  deserialize-IsBounded (tuple ss) target = deserialize_all-IsBounded ss target
  deserialize-IsBounded (trivial_vector w) target = IsBounded-trivial_vector w target
  deserialize-IsBounded (vector s) target =
      IsBounded-then (λ n r. read_each (deserialize s) (resize n (default_value s) target) r)
        (IsBounded-trivial size_of_size)
        (λ n.
          IsBounded-each (deserialize s) (λ t. deserialize-IsBounded s t)
            (resize n (default_value s) target))
  deserialize-IsBounded (dictionary k s) target =
      IsBounded-then
        (λ n r.
          read_entries (same k) (deserialize k (default_value k)) (deserialize s (default_value s))
            n [] r)
        (IsBounded-trivial size_of_size)
        (λ n.
          IsBounded-entries (same k) (deserialize k (default_value k))
            (deserialize s (default_value s)) (deserialize-IsBounded k (default_value k))
            (deserialize-IsBounded s (default_value s)) n [])

  deserialize_all-IsBounded :
      (ss : Schemas) (target : Values ss) → IsBounded (deserialize_all ss target)
  deserialize_all-IsBounded end target = IsBounded-return tt
  deserialize_all-IsBounded (field s ss) target =
      IsBounded-then (λ x r. deserialize_all ss target.1 r >>= λ q. ok ((x, q.0), q.1))
        (deserialize-IsBounded s target.0)
        (λ x. IsBounded-map (λ y. (x, y)) (deserialize_all-IsBounded ss target.1))

  deserialize_variant_helper-IsBounded :
      (ss : Schemas) (index : ℕ) → IsBounded (deserialize_variant_helper ss index)
  deserialize_variant_helper-IsBounded end index = IsBounded-return none
  deserialize_variant_helper-IsBounded (field s ss) index =
      IsBounded-if (index == 0)
        (IsBounded-map (λ x. some (inl x)) (deserialize-IsBounded s (default_value s)))
        (IsBounded-map (shift_choice s ss) (deserialize_variant_helper-IsBounded ss (index - 1)))

-- On any bytes at all, of less than `2 ^ 64`, deserializing a value of any type never reads past their
-- end: it throws, or it leaves them less some of the first.
pub deserialize-StaysInside :
    (s : Schema) (target : Value s) (bytes : List ℕ)
    → length bytes < 2 ^ 64
    → StaysInside bytes (deserialize s target (view bytes))
deserialize-StaysInside s target bytes l = (deserialize-IsBounded s target).bounded bytes l
