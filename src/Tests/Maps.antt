-- ===== src/Tests/Maps.antt =====
-- Concrete tables for include/hash_map.h: keys that are their own hash, 16 buckets, and entries of
-- 24 bytes.
use turbokit.Base.{
  inl, ◌++◌, ◌<◌, Bool-cases, inr, List, length, ℕ, ◌^◌, ◌≤◌, ◌≡◌, refl, Bool, Option, none, some,
  ◌==◌, ==_iff, arith,
}
use turbokit.HashMap.Types.{Traits, Layout, HashMap, Iterator, iterator, in_main, masked, entry_at}
use turbokit.HashMap.Find.{find, find_in_collision_chain}
use turbokit.HashMap.Insert.{
  ok, reserve, try_insert, fresh, place_main, place_collision, main_entry,
}
use turbokit.HashMap.Iterate.{begin, remove, clear}
use turbokit.HashMap.Visit.{visit}
use turbokit.HashMap.Entries.{lookup, Distinct, visit-Lists}
use turbokit.HashMap.Slots.{slot}
use turbokit.HashMap.Invariant.{home, Represents}
use turbokit.HashMap.Lookup.{find-entry_at, with_key}
use turbokit.HashMap.Scan.{search, find_in_collision_chain-search}
use turbokit.HashMap.Place.{assign, place_main-Represents, place_collision-Represents}
use turbokit.HashMap.Index.{index, value_or, index-value_or}
use turbokit.HashMap.Copy.{copy_assign, copy_assign-Stands}
use turbokit.HashMap.Rehash.{insert_new, fresh-Good}
use turbokit.HashMap.Run.{Suffices}
use turbokit.HashMap.TryInsert.{Stands, tables, Tried, try_insert-Tried}
use turbokit.HashMap.Reserve.{reserve-Represents}
use turbokit.HashMap.Types.{in_collision}
use turbokit.HashMap.RemoveMain.{main, collision, Removed}
use turbokit.HashMap.RemoveAt.{Next, remove-Removed, remove-Next}
use turbokit.HashMap.Clear.{Cleared, clear-Cleared}
use turbokit.Serialization.Schema.{Schema, trivial, dictionary, Value, same}
use turbokit.Serialization.Writer.{Operation, SerializeContext, serialize}
use turbokit.Serialization.Format.{encode}
use turbokit.Serialization.Reader.{ok as read, view, deserialize}
use turbokit.Serialization.Valid.{IsValid}
use turbokit.Serialization.Maps.{serialize_map, serialize_map-reads}

instance numbers : Traits ℕ
numbers = record { hash = λ k. k; equal = ◌==◌; equal_iff = ==_iff; entry_size = 24 }

-- Keys of 8 bytes in front of values that are aligned to 8, with no padding.
abbrev packed : Layout ℕ
packed = record { key_size = 8; value_alignment = 8; stray = λ p. 0 }

abbrev Table : Type 0
Table = HashMap ℕ ℕ

abbrev t0 : Table
t0 = fresh (2 ^ 4)

abbrev nothing : ℕ → Option ℕ
nothing k = none

t0-Represents : Represents t0 nothing
t0-Represents = (fresh-Good 4 4 4 (omega arith) (omega arith)).represents

abbrev t1 : Table
t1 = place_main (home t0 5) 5 50 t0

abbrev one : ℕ → Option ℕ
one = assign nothing 5 50

t1-Represents : Represents t1 one
t1-Represents =
    place_main-Represents t0 5 50 t0-Represents.table
      (record { main = λ b e h. cc; collision = λ i c h. cc }) nothing t0-Represents refl

-- 21 falls into the same bucket as 5, and is put into the collision table.
abbrev t2 : Table
t2 = place_collision (home t1 21) (slot 16 (home t1 21) 0) 1 (main_entry 5 50 0) 21 210 t1

abbrev two : ℕ → Option ℕ
two = assign one 21 210

t2-Represents : Represents t2 two
unfolding numbers place_main masked
t2-Represents =
    place_collision-Represents t1 21 210 t1-Represents.table
      (record { main = λ b e h. ground arith; collision = λ i c h. cc }) (main_entry 5 50 0) 0 refl
      (omega arith) (omega arith) refl one t1-Represents

Suffices-two : Suffices 24 20 3
Suffices-two = record {
  addressable = omega arith;
  load = omega arith;
  crowd = omega arith;
  chains = omega arith;
}

-- 37 falls into the bucket of 5 and 21 too.
try_insert-Tried_example :
    (r : Table × Iterator × Bool) × (try_insert 42 t2 37 370 ≡ ok r) × Tried two 37 370 r
unfolding numbers place_main place_collision
try_insert-Tried_example =
    try_insert-Tried 20 42 t2 two 37 370 Suffices-two (tables t2-Represents) (omega arith)
      (omega arith) (omega arith)

reserve-Represents_example :
    (m : Table) × (reserve (try_insert 42) 100 t2 ≡ ok m)
    × Represents m two
    × (100 ≤ m.bucket_count)
    × (t2.bucket_count ≤ m.bucket_count)
unfolding numbers place_main place_collision
reserve-Represents_example =
    reserve-Represents 20 42 100 t2 two
      (record {
        addressable = omega arith;
        load = omega arith;
        crowd = omega arith;
        chains = omega arith;
      })
      t2-Represents (omega arith) (omega arith) (omega arith)

find-entry_at_example : entry_at t2 (find t2 21).value_ptr ≡ with_key 21 (two 21)
find-entry_at_example = find-entry_at t2 two 21 t2-Represents

remove-Removed_example :
    (r : Table × Iterator) × (remove t2 (iterator (some 5) none (in_main 5)) ≡ some r)
    × Removed t2 two 5 r.0
unfolding numbers place_main place_collision masked
remove-Removed_example =
    remove-Removed t2 two 5 (iterator (some 5) none (in_main 5)) t2-Represents
      (main 5 (main_entry 5 50 1) refl)

-- The collision entry with 21, by an iterator as `operator++` makes it.
remove-Next_example :
    (r : Table × Iterator) × (remove t2 (iterator none (some 5) (in_collision 5)) ≡ some r)
    × Removed t2 two 21 r.0
    × Next r.0 r.1
unfolding numbers place_main place_collision masked
remove-Next_example =
    remove-Next t2 two 21 (iterator none (some 5) (in_collision 5)) t2-Represents
      (collision none 5 (record { key = 21; value = 210; main_index = 5 }) refl refl) (inr refl)

visit-Lists_example :
    (es : List (ℕ × ℕ)) × (visit packed t2.element_count t2 (begin t2) ≡ some es)
    × (length es ≡ t2.element_count)
    × Distinct es
    × ((k : ℕ) → lookup es k ≡ two k)
visit-Lists_example = visit-Lists packed t2 two refl t2-Represents

clear-Cleared_example : (m : Table) × (clear t2 ≡ some m) × Cleared t2.bucket_count m
clear-Cleared_example = clear-Cleared t2 two (tables t2-Represents)

find_in_collision_chain-search_example :
    find_in_collision_chain t2 5 1 21 ≡ search t2 5 21 (slot 16 5 1) 1 0
unfolding place_main place_collision
find_in_collision_chain-search_example =
    find_in_collision_chain-search t2 5 1 21 (4, refl) (omega arith) (omega arith) (omega arith)

-- 5 and 21 are copied to a map that has 5 only.
copy_assign-Stands_example :
    (m : Table) × (copy_assign packed (try_insert 42) t2 t1 ≡ ok m) × Stands m two
unfolding numbers place_main place_collision
copy_assign-Stands_example =
    copy_assign-Stands packed 20 42 t2 t1 one two refl
      (record {
        addressable = omega arith;
        load = omega arith;
        crowd = omega arith;
        chains = omega arith;
      })
      t2-Represents (tables t1-Represents) (omega arith) (omega arith) (omega arith)

-- Keys and values of 8 bytes.
abbrev number : Schema
number = trivial 8

two-IsValid : (a v : ℕ) → two a ≡ some v → IsValid number a × IsValid number v
unfolding numbers
two-IsValid a v h = elim (Bool-cases (21 == a)) [
  | inl s ↦ (ground arith, ground arith)
  | inr s ↦ (ground arith, ground arith)
]

serialize_map-reads_example :
    (es : Value (dictionary number number)) × ((op : Operation) (c : SerializeContext)
      → serialize_map op number number packed t2 c ≡ serialize op (dictionary number number) es c)
    × ((target : Value (dictionary number number)) (rest : List ℕ)
        → length (encode (dictionary number number) es ++ rest) < 2 ^ 64
        → deserialize
            (dictionary number number)
            target
            (view (encode (dictionary number number) es ++ rest))
          ≡ read (es, view rest))
    × ((a : ℕ) → lookup es a ≡ two a)
unfolding numbers place_main place_collision same
serialize_map-reads_example =
    serialize_map-reads number number packed t2 two refl t2-Represents (λ a b. refl) two-IsValid
      (omega arith)

-- `[21]` of the two entries, with 0 as the new value.
index-value_or_example :
    (m : Table) × (index 42 0 t2 21 ≡ ok (m, some (21, value_or 0 (two 21))))
    × Represents m (insert_new two 21 0)
unfolding numbers place_main place_collision
index-value_or_example =
    index-value_or 20 42 t2 two 21 0 Suffices-two (tables t2-Represents) (omega arith) (omega arith)
      (omega arith)
