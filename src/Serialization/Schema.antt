-- ===== src/Serialization/Schema.antt =====
-- The C++ types that include/serialization.h has a `serialize` or a builtin `write` for, as data, and
-- the values of each. A type that `std::is_trivial_v` holds of is known by its size, and its value by
-- the number that its bytes spell, the lowest byte first. `same` is `==` on keys.
use turbokit.Base.{
  ℕ, Bool, false, true, ◌&&◌, Option, none, some, List, [], ◌∷◌, ◌⊎◌, inl, inr, ◌==◌,
}

-- `trivial_vector` is a vector whose elements are trivial and have no `serialize` of their own, and
-- `vector` any other: `serialize_container` tells them apart by `if constexpr`. `variant` has its first
-- alternative and the others.
mutual
  pub data Schema : Type 0 where
    trivial : ℕ → Schema
    string : Schema
    pair : Schema → Schema → Schema
    optional : Schema → Schema
    variant : Schema → Schemas → Schema
    tuple : Schemas → Schema
    trivial_vector : ℕ → Schema
    vector : Schema → Schema
    dictionary : Schema → Schema → Schema

  pub data Schemas : Type 0 where
    end : Schemas
    field : Schema → Schemas → Schemas

-- A dictionary is its entries, in the order in which it visits them where it is written, and in which
-- they were put in where it is read: which order the container makes of it is not modelled.
abbrev mutual
  pub Value : Schema → Type 0
  Value (trivial w) = ℕ
  Value string = List ℕ
  Value (pair a b) = Value a × Value b
  Value (optional s) = Option (Value s)
  Value (variant s ss) = Value s ⊎ Choice ss
  Value (tuple ss) = Values ss
  Value (trivial_vector w) = List ℕ
  Value (vector s) = List (Value s)
  Value (dictionary k s) = List (Value k × Value s)

  pub Values : Schemas → Type 0
  Values end = Unit
  Values (field s ss) = Value s × Values ss

  pub Choice : Schemas → Type 0
  Choice end = ⊥
  Choice (field s ss) = Value s ⊎ Choice ss

-- What a default constructor makes.
unfoldable mutual
  pub default_value : (s : Schema) → Value s
  default_value (trivial w) = 0
  default_value string = []
  default_value (pair a b) = (default_value a, default_value b)
  default_value (optional s) = none
  default_value (variant s ss) = inl (default_value s)
  default_value (tuple ss) = default_values ss
  default_value (trivial_vector w) = []
  default_value (vector s) = []
  default_value (dictionary k s) = []

  pub default_values : (ss : Schemas) → Values ss
  default_values end = tt
  default_values (field s ss) = (default_value s, default_values ss)

abbrev pub same_list : {A : Type 0} → (A → A → Bool) → List A → List A → Bool
same_list eq [] [] = true
same_list eq [] (y ∷ ys) = false
same_list eq (x ∷ xs) [] = false
same_list eq (x ∷ xs) (y ∷ ys) = eq x y && same_list eq xs ys

abbrev pub same_option : {A : Type 0} → (A → A → Bool) → Option A → Option A → Bool
same_option eq none none = true
same_option eq none (some y) = false
same_option eq (some x) none = false
same_option eq (some x) (some y) = eq x y

abbrev pub same_sum : {A B : Type 0} → (A → A → Bool) → (B → B → Bool) → A ⊎ B → A ⊎ B → Bool
same_sum f g (inl x) (inl y) = f x y
same_sum f g (inl x) (inr y) = false
same_sum f g (inr x) (inl y) = false
same_sum f g (inr x) (inr y) = g x y

unfoldable mutual
  pub same : (s : Schema) → Value s → Value s → Bool
  same (trivial w) x y = x == y
  same string x y = same_list ◌==◌ x y
  same (pair a b) x y = same a x.0 y.0 && same b x.1 y.1
  same (optional s) x y = same_option (same s) x y
  same (variant s ss) x y = same_sum (same s) (same_choice ss) x y
  same (tuple ss) x y = same_values ss x y
  same (trivial_vector w) x y = same_list ◌==◌ x y
  same (vector s) x y = same_list (same s) x y
  same (dictionary k s) x y = same_list (λ e f. same k e.0 f.0 && same s e.1 f.1) x y

  pub same_values : (ss : Schemas) → Values ss → Values ss → Bool
  same_values end x y = true
  same_values (field s ss) x y = same s x.0 y.0 && same_values ss x.1 y.1

  pub same_choice : (ss : Schemas) → Choice ss → Choice ss → Bool
  same_choice end x y = true
  same_choice (field s ss) x y = same_sum (same s) (same_choice ss) x y
