-- ===== src/Tests/Stale.antt =====
-- `remove` (include/hash_map.h) twice, with the iterator that the first call returns.
use turbokit.Base.{ℕ, ◌≡◌, refl, true, Option, none, some, ◌==◌, if◌then◌else◌}
use turbokit.HashMap.Types.{HashMap, Iterator, iterator, in_collision, masked}
use turbokit.HashMap.Insert.{main_entry, collision_entry}
use turbokit.HashMap.Iterate.{
  increment, next_collision, remove, remove_collision, shrink, drop_collision,
}

-- Two buckets, 5 and 6, with a collision entry each.
abbrev twin : HashMap ℕ ℕ
twin = record {
  bucket_count = 16;
  element_count = 4;
  allocated = true;
  main_table = λ i.
      if i == 5
      then some (main_entry 5 50 1)
      else if i == 6
      then some (main_entry 6 60 1)
      else none;
  collision_table = λ i.
      if i == 5
      then some (collision_entry 21 210 5)
      else if i == 6
      then some (collision_entry 22 220 6)
      else none;
}

abbrev twice : Iterator → Option ℕ
twice it = elim (remove twin it) [
  | none ↦ some 99
  | some (m, next) ↦ elim (remove m next) [ none ↦ none | some (m', last) ↦ some m'.element_count ]
]

-- The iterator that `find` makes of 21 has the bucket 5, and keeps it at the entry of 22.
stale_bucket : twice (iterator (some 5) (some 5) (in_collision 5)) ≡ none
unfolding remove remove_collision shrink drop_collision increment next_collision masked
stale_bucket = refl

-- The iterator that `operator++` makes has none.
fresh_bucket : twice (iterator none (some 5) (in_collision 5)) ≡ some 2
unfolding remove remove_collision shrink drop_collision increment next_collision masked
fresh_bucket = refl
