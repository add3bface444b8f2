-- ===== src/HashMap/Insert.antt =====
-- `try_insert`, `reserve` and `resize_table` of include/hash_map.h.
use Prim.Native.Nat.{bit_and}
use turbokit.Base.{
  ℕ, zero, suc, ◌+◌, ◌-◌, ◌*◌, ◌/◌, ◌%◌, ◌^◌, Bool, true, false, ◌&&◌, ◌||◌, Option, none, some,
  ◌==◌, ltb, leb, if◌then◌else◌,
}
use turbokit.HashMap.Types.{
  Traits, HashMap, MainEntry, CollisionEntry, null, in_main, in_collision, Iterator, iterator, new,
  update, masked,
}
use turbokit.HashMap.Find.{find}

-- How a call ends. `fault` is a read of an entry that is not there, `aborted` is `std::abort`, and
-- `range_error` the exception of `reserve`.
pub data Result (A : Type 0) : Type 0 where
  ok : A → Result A
  range_error : Result A
  aborted : Result A
  fault : Result A
  out_of_fuel : Result A

module _ {A B : Type 0} where
  infixl 5 ◌>>=◌
  abbrev pub ◌>>=◌ : Result A → (A → Result B) → Result B
  ok a >>= f = f a
  range_error >>= f = range_error
  aborted >>= f = aborted
  fault >>= f = fault
  out_of_fuel >>= f = out_of_fuel

-- `while (bucket_limit < n) bucket_limit *= 2;`: a `size_t` is doubled fewer than 64 times.
unfoldable pub grow : ℕ → ℕ → ℕ → ℕ
grow zero n bucket_limit = bucket_limit
grow (suc fuel) n bucket_limit =
    let more = grow fuel n (bucket_limit * 2 % 2 ^ 64) in
    if ltb bucket_limit n then more else bucket_limit

-- What placing a new element comes to: the table with it, or `goto expand`.
pub data Placing (K V : Type 0) : Type 0 where
  placed : HashMap K V → Iterator → Placing K V
  expand : Placing K V
  undefined : Placing K V

-- The insertions that `resize_table` makes go through `try_insert`, which is handed in.
abbrev pub Inserter : (K V : Type 0) → Type 0
Inserter K V = HashMap K V → K → V → Result (HashMap K V × Iterator × Bool)

module _ {K V : Type 0} where
  abbrev pub main_entry : K → V → ℕ → MainEntry K V
  main_entry k v c = record { key = k; value = v; chain_length = c }

  abbrev pub collision_entry : K → V → ℕ → CollisionEntry K V
  collision_entry k v b = record { key = k; value = v; main_index = b }

  -- `while (!isInvalid(collision_table[index].main_index)) …`, with the slot reached and the chain
  -- length.
  unfoldable pub probe : HashMap K V → ℕ → (index chain_len : ℕ) → Option (ℕ × ℕ)
  probe m zero index chain_len = none
  probe m (suc fuel) index chain_len = elim (m.collision_table index) [
    | none ↦ some (index, chain_len)
    | some e ↦ probe m fuel (masked m.bucket_count (index + 1)) (chain_len + 1)
  ]

  unfoldable pub place_main : ℕ → K → V → HashMap K V → HashMap K V
  place_main b k v m = record m {
    element_count = m.element_count + 1;
    main_table = update m.main_table b (some (main_entry k v 0));
  }

  unfoldable pub place_collision :
      (b index chain_len : ℕ) → MainEntry K V → K → V → HashMap K V → HashMap K V
  place_collision b index chain_len e k v m = record m {
    element_count = m.element_count + 1;
    main_table = update m.main_table b (some (record e { chain_length = chain_len }));
    collision_table = update m.collision_table index (some (collision_entry k v b));
  }

module _ {K V : Type 0} ⦃t : Traits K⦄ where
  -- The two tests that lead to `expand`.
  unfoldable pub crowded : HashMap K V → Bool
  crowded m =
      ltb m.bucket_count (1024 * 1024 / t.entry_size) && ltb m.bucket_count (m.element_count * 4)

  unfoldable pub too_long : HashMap K V → ℕ → Bool
  too_long m chain_len =
      (leb 4 chain_len && ltb m.bucket_count (1024 * 1024 * 4 / t.entry_size))
      || leb (m.bucket_count / 2) chain_len

  -- The part of `try_insert` behind the label `resize`, for the iterator of an absent key.
  unfoldable pub place_at : (b : ℕ) → Option ℕ → K → V → HashMap K V → Placing K V
  place_at b none k v m = placed (place_main b k v m) (iterator (some b) none (in_main b))
  place_at b (some start) k v m = if crowded m then expand else elim (m.main_table b) [
    | none ↦ undefined
    | some e ↦ elim (probe m m.bucket_count start (e.chain_length + 1)) [
      | none ↦ undefined
      | some (index, chain_len) ↦
          if too_long m chain_len
          then expand
          else placed (place_collision b index chain_len e k v m)
              (iterator (some b) (some index) (in_collision index))
    ]
  ]

  unfoldable pub place : Iterator → K → V → HashMap K V → Placing K V
  place it k v m = elim it.bucket_index [
    | none ↦ undefined
    | some b ↦ place_at b it.collision_index k v m
  ]

module _ {K V : Type 0} where
  unfoldable pub rehash :
      Inserter K V → (ℕ → Option (K × V)) → (rounds i : ℕ) → HashMap K V → Result (HashMap K V)
  rehash insert entry zero i m = ok m
  rehash insert entry (suc rounds) i m = elim (entry i) [
    | none ↦ rehash insert entry rounds (i + 1) m
    | some (k, v) ↦ insert m k v >>= λ r. rehash insert entry rounds (i + 1) r.0
  ]

  abbrev pub main_content : Option (MainEntry K V) → Option (K × V)
  main_content none = none
  main_content (some e) = some (e.key, e.value)

  abbrev pub collision_content : Option (CollisionEntry K V) → Option (K × V)
  collision_content none = none
  collision_content (some e) = some (e.key, e.value)

  abbrev pub main_pair : HashMap K V → ℕ → Option (K × V)
  main_pair m i = main_content (m.main_table i)

  abbrev pub collision_pair : HashMap K V → ℕ → Option (K × V)
  collision_pair m i = collision_content (m.collision_table i)

  -- The tables of `n` buckets that `resize_table` starts from.
  abbrev pub fresh : ℕ → HashMap K V
  fresh n = record new { bucket_count = n; allocated = true }

  unfoldable pub resize_table : Inserter K V → ℕ → HashMap K V → Result (HashMap K V)
  resize_table insert n m =
      if bit_and n (n - 1) == 0
      then (if m.allocated
          then (rehash insert (main_pair m) m.bucket_count 0 (fresh n)
              >>= rehash insert (collision_pair m) m.bucket_count 0)
          else ok (fresh n))
      else aborted

  unfoldable pub reserve : Inserter K V → ℕ → HashMap K V → Result (HashMap K V)
  reserve insert n m =
      if leb ((2 ^ 64 - 1) / 2) n
      then range_error
      else resize_table insert (grow 64 n (if m.bucket_count == 0 then 1 else m.bucket_count)) m

-- Where a call of `try_insert` stands: at its start, or behind the label `resize`.
pub data Label : Type 0 where
  start : Label
  resized : Label

module _ {K V : Type 0} ⦃t : Traits K⦄ where
  -- Each nested call and each `goto` takes one unit of fuel.
  unfoldable pub run : ℕ → Label → Inserter K V
  run zero label m k v = out_of_fuel
  run (suc fuel) start m k v =
      (if m.allocated then ok m else reserve (run fuel start) 16 m) >>= λ m1.
      let it = find m1 k in
      elim it.value_ptr [
        | null ↦
            (if ltb m1.bucket_count (m1.element_count + 1)
              then reserve (run fuel start) (m1.element_count + 1) m1
              else ok m1)
            >>= λ m2. run fuel resized m2 k v
        | _ ↦ ok (m1, it, false)
      ]
  run (suc fuel) resized m k v = elim (place (find m k) k v m) [
    | placed m1 it ↦ ok (m1, it, true)
    | expand ↦ reserve (run fuel start) (m.bucket_count + 1) m >>= λ m1. run fuel resized m1 k v
    | undefined ↦ fault
  ]

  unfoldable pub try_insert : ℕ → Inserter K V
  try_insert fuel m k v = run fuel start m k v
