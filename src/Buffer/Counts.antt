-- ===== src/Buffer/Counts.antt =====
-- The reference count of a block is the number of its handles (include/buffer.h).
use turbokit.Base.{
  ℕ, ◌+◌, ◌-◌, ◌%◌, ◌^◌, ◌<◌, ◌≡◌, ◌≢◌, ◌↔◌, refl, Bool, true, false, Option, none, some, ◌==◌,
  arith, if◌then◌else◌, Option-cases, inl, inr,
}
use turbokit.Sync.Threads.{count, count-update, count_one, count-le}
use turbokit.Buffer.{
  MemoryBlock, Store, ok, update, point, increment_reference, copy, move_assign, destruct,
}

abbrev pub points : ℕ → Option ℕ → Bool
points b none = false
points b (some c) = b == c

-- For `n` handles.
pub record IsCounted (n : ℕ) (s : Store) : Type 0 where
  pub counted :
      (b : ℕ) (block : MemoryBlock)
      → s.blocks b ≡ some block
      → block.reference_count ≡ count n (points b) s.handles
  pub there : (i b : ℕ) → i < n → s.handles i ≡ some b → s.blocks b ≢ none

module _ (n : ℕ) (few : n < 2 ^ 32) where
  -- With fewer than 2 ^ 32 handles, a copy into a handle without a block makes it point to the same
  -- block and keeps every count equal to the number of handles.
  pub copy-IsCounted :
      (s : Store) (j i : ℕ)
      → IsCounted n s
      → i < n
      → j < n
      → s.handles j ≡ none
      → (s' : Store) × (copy j i s ≡ ok s') × IsCounted n s' × (s'.handles j ≡ s.handles i)
  unfolding copy increment_reference
  copy-IsCounted s j i c hi hj free = elim (Option-cases (s.handles i)) [
    | inl e ↦ (
      point j none s,
      rw (e, copy) refl,
      record {
        counted = λ b block h.
            ground (arith, c.counted b block h, count-update n (points b) s.handles j none hj);
        there = λ x b hx h. c.there x b hx (ground arith);
      },
      ground arith,
    )
    | inr (b, e) ↦ elim (Option-cases (s.blocks b)) [
      | inl gone ↦ absurd (c.there i b hi e gone)
      | inr (block, h) ↦
          let s' = record s {
            blocks =
                update s.blocks b
                  (some (record block { reference_count = (block.reference_count + 1) % 2 ^ 32 }));
            handles = update s.handles j (some b);
          } in
          (
            s',
            rw (e, copy, increment_reference, h) refl,
            record {
              counted = λ x block' h'. ground (
                arith,
                c.counted x block',
                c.counted b block h,
                count-update n (points x) s.handles j (some b) hj,
                count-le n (points x) s'.handles,
              );
              there = λ x y hx hy. ground (arith, c.there x y hx);
            },
            ground arith,
          )
    ]
  ]

  -- The move constructor into a handle without a block, and the move assignment, count no handle
  -- anew.
  pub move-IsCounted :
      (s : Store) (j i : ℕ)
      → IsCounted n s
      → i < n
      → j < n
      → j ≢ i
      → ((s' : Store) × (move_assign j i s ≡ ok s')
          × IsCounted n s'
          × (s'.handles j ≡ s.handles i)
          × (s'.handles i ≡ s.handles j))
  unfolding move_assign
  move-IsCounted s j i c hi hj ne = (
    point i (s.handles j) (point j (s.handles i) s),
    refl,
    record {
      counted = λ b block h.
          let one = count-update n (points b) s.handles j (s.handles i) hj in
          let two =
            count-update n (points b) (update s.handles j (s.handles i)) i (s.handles j) hi in
          let other : (i == j) ≡ false = ground arith in
          let two' = rw other at two in omega (arith, c.counted b block h);
      there = λ x b hx h. ground (arith, c.there x b hx, c.there i b hi, c.there j b hj);
    },
    ground arith,
    ground arith,
  )

  -- The destructor takes its handle away, and the block is freed exactly where it was the last handle
  -- to it.
  pub destruct-IsCounted :
      (s : Store) (i b : ℕ)
      → IsCounted n s
      → i < n
      → s.handles i ≡ some b
      → (s' : Store) × (destruct i s ≡ ok s')
        × IsCounted n s'
        × (s'.handles i ≡ none)
        × ((s'.blocks b ≡ none) ↔ (count n (points b) s'.handles ≡ 0))
  unfolding destruct
  destruct-IsCounted s i b c hi e = elim (Option-cases (s.blocks b)) [
    | inl gone ↦ absurd (c.there i b hi e gone)
    | inr (block, h) ↦
        let less = (block.reference_count + 2 ^ 32 - 1) % 2 ^ 32 in
        let s' = point i none (record s {
          blocks =
              update s.blocks b
                (if less == 0 then none else some (record block { reference_count = less }));
        }) in
        let own : points b (s.handles i) ≡ true = ground arith in
        let one = count_one n (points b) s.handles i hi own in
        let moved = count-update n (points b) s.handles i none hi in
        let left : less ≡ count n (points b) s'.handles =
          ground (arith, c.counted b block h, count-le n (points b) s.handles) in
        (
          s',
          rw (e, destruct, h) refl,
          record {
            counted = λ x block' h'.
                ground (arith, c.counted x block', count-update n (points x) s.handles i none hi);
            there =
                λ x y hx hy. ground (arith, c.there x y hx, count_one n (points b) s'.handles x hx);
          },
          ground arith,
          ((λ q. ground arith), λ q. ground arith),
        )
  ]

  -- The copy assignment to a handle that points to another block does not give that block's reference
  -- up: its count stays one above the number of its handles.
  pub copy_leak :
      (s : Store) (j i b d : ℕ) (block : MemoryBlock)
      → IsCounted n s
      → i < n
      → j < n
      → s.handles j ≡ some b
      → s.handles i ≡ some d
      → b ≢ d
      → s.blocks b ≡ some block
      → (s' : Store) × (copy j i s ≡ ok s')
        × (s'.blocks b ≡ some block)
        × (block.reference_count ≡ count n (points b) s'.handles + 1)
  unfolding copy increment_reference
  copy_leak s j i b d block c hi hj ej ei ne h = elim (Option-cases (s.blocks d)) [
    | inl gone ↦ absurd (c.there i d hi ei gone)
    | inr (other, hd) ↦ (
      record s {
        blocks =
            update s.blocks d
              (some (record other { reference_count = (other.reference_count + 1) % 2 ^ 32 }));
        handles = update s.handles j (some d);
      },
      rw (ei, copy, increment_reference, hd) refl,
      ground arith,
      ground (arith, c.counted b block h, count-update n (points b) s.handles j (some d) hj),
    )
  ]
