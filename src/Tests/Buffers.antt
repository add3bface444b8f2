-- ===== src/Tests/Buffers.antt =====
-- Concrete stores for include/buffer.h.
use turbokit.Base.{inr, ℕ, ◌+◌, ◌≡◌, ◌↔◌, refl, none, some, ◌==◌, arith, if◌then◌else◌}
use turbokit.Sync.Threads.{count}
use turbokit.Buffer.{MemoryBlock, Store, ok, copy, destruct}
use turbokit.Buffer.Unique.{Owners, ok_ending, share_call, call}
use turbokit.Buffer.Owned.{IsOwned, call-IsOwned}
use turbokit.Buffer.Counts.{points, IsCounted, destruct-IsCounted, copy_leak}

abbrev block : ℕ → MemoryBlock
block c = record { capacity = 64; reference_count = c }

-- The handles 0 and 1 to the block 7, the handle 2 to the block 8, and the handle 3 to none.
abbrev store : Store
store = record {
  blocks = λ b. if b == 7 then some (block 2) else if b == 8 then some (block 1) else none;
  handles =
      λ i. if i == 0 then some 7 else if i == 1 then some 7 else if i == 2 then some 8 else none;
}

store-IsCounted : IsCounted 4 store
unfolding count
store-IsCounted = record { counted = λ b x h. ground arith; there = λ i b hi h. ground arith }

destruct-IsCounted_example :
    (s : Store) × (destruct 2 store ≡ ok s)
    × IsCounted 4 s
    × (s.handles 2 ≡ none)
    × ((s.blocks 8 ≡ none) ↔ (count 4 (points 8) s.handles ≡ 0))
destruct-IsCounted_example =
    destruct-IsCounted 4 (omega arith) store 2 8 store-IsCounted (omega arith) refl

copy_leak_example :
    (s : Store) × (copy 2 0 store ≡ ok s)
    × (s.blocks 8 ≡ some (block 1))
    × (1 ≡ count 4 (points 8) s.handles + 1)
copy_leak_example =
    copy_leak 4 (omega arith) store 2 0 8 7 (block 1) store-IsCounted (omega arith) (omega arith)
      refl refl (ground arith) refl

-- With a block 9 whose pointer the program has got back from a unique handle, and which the shared
-- handle 3 then takes.
abbrev owners : Owners
owners = record {
  store = record store { blocks = λ b. if b == 9 then some (block 0) else store.blocks b };
  uniques = λ i. none;
  loose = λ b. b == 9;
}

owners-IsOwned : IsOwned 4 owners
unfolding count
owners-IsOwned = record {
  shared = record { counted = λ b x h. ground arith; there = λ i b hi h. ground arith };
  held = λ i b h. cc;
  unused = λ i b x h h'. cc;
  sole = λ i j b h h'. cc;
  kept = λ b h. ground arith;
  kept_unused = λ b x h h'. ground arith;
  apart = λ i b h. cc;
  owner = λ b x h z. inr (ground arith);
}

call-IsOwned_example : (u : Owners) × (call (share_call 3 9) owners ≡ ok_ending u) × IsOwned 4 u
call-IsOwned_example =
    call-IsOwned 4 owners owners-IsOwned (share_call 3 9) (omega arith, refl, refl)
