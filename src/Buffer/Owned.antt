-- ===== src/Buffer/Owned.antt =====
-- Who owns a block of include/buffer.h: shared handles, a unique handle, or the program.
use turbokit.Base.{
  ℕ, ◌+◌, ◌%◌, ◌^◌, ◌<◌, ◌≡◌, ◌≢◌, ◌⊎◌, refl, true, false, Bool-cases, none, some, Option-cases,
  inl, inr, ◌==◌, arith,
}
use mathlib.Core.Path.{subst}
use turbokit.Sync.Threads.{count, count-update, count_one, count_zero}
use turbokit.Buffer.{MemoryBlock, update, take, increment_reference}
use turbokit.Buffer.Counts.{points, IsCounted}
use turbokit.Buffer.Unique.{
  Owners, ok_ending, hold, keep, create, destroy, create_memory_block, move_construct, move_assign,
  destruct, relinquish, adopt, share, discard, Call, create_call, construct_call, assign_call,
  destruct_call, relinquish_call, adopt_call, share_call, discard_call, call, ending, Allowed,
}

-- Every block has as many shared handles as it counts, or else one unique handle, or else it is one
-- whose pointer the program has.
pub record IsOwned (n : ℕ) (u : Owners) : Type 0 where
  pub shared : IsCounted n u.store
  pub held : (i b : ℕ) → u.uniques i ≡ some b → u.store.blocks b ≢ none
  pub unused :
      (i b : ℕ) (block : MemoryBlock)
      → u.uniques i ≡ some b
      → u.store.blocks b ≡ some block
      → block.reference_count ≡ 0
  pub sole : (i j b : ℕ) → u.uniques i ≡ some b → u.uniques j ≡ some b → i ≡ j
  pub kept : (b : ℕ) → u.loose b ≡ true → u.store.blocks b ≢ none
  pub kept_unused :
      (b : ℕ) (block : MemoryBlock)
      → u.loose b ≡ true
      → u.store.blocks b ≡ some block
      → block.reference_count ≡ 0
  pub apart : (i b : ℕ) → u.uniques i ≡ some b → u.loose b ≡ false
  pub owner :
      (b : ℕ) (block : MemoryBlock)
      → u.store.blocks b ≡ some block
      → block.reference_count ≡ 0
      → ((i : ℕ) × (u.uniques i ≡ some b)) ⊎ (u.loose b ≡ true)

module _ (n : ℕ) (u : Owners) (o : IsOwned n u) where
  -- No shared handle to a block that is not there.
  unshared : (b : ℕ) → u.store.blocks b ≡ none → count n (points b) u.store.handles ≡ 0
  unshared b gone = count_zero n (points b) u.store.handles (λ i l.
      elim (Option-cases (u.store.handles i)) [
        | inl e ↦ rw e refl
        | inr (c, e) ↦ ground (arith, o.shared.there i c l e)
      ])

  -- A block without handles goes away.
  destroy-IsCounted :
      (b : ℕ) (block : MemoryBlock)
      → u.store.blocks b ≡ some block
      → block.reference_count ≡ 0
      → IsCounted n (destroy b u.store)
  unfolding destroy
  destroy-IsCounted b block q z =
      let none_left = o.shared.counted b block q in
      record {
        counted = λ c x h. ground (arith, o.shared.counted c x);
        there = λ x c l h.
            ground (arith, o.shared.there x c l h, count_one n (points b) u.store.handles x l);
      }

  create-IsOwned :
      (j b bytes : ℕ)
      → u.uniques j ≡ none
      → u.store.blocks b ≡ none
      → (u' : Owners) × (create_memory_block j (some b) bytes u ≡ ok_ending u') × IsOwned n u'
  unfolding create_memory_block create
  create-IsOwned j b bytes free gone = (
    hold j (some b) (record u {
      store = record u.store {
        blocks = update u.store.blocks b (some (record { capacity = bytes; reference_count = 0 }));
      };
    }),
    refl,
    record {
      shared = record {
        counted = λ c block h. ground (arith, o.shared.counted c block, unshared b gone);
        there = λ i c l h. ground (arith, o.shared.there i c l h);
      };
      held = λ i c h. ground (arith, o.held i c);
      unused = λ i c block h h'. ground (arith, o.unused i c block, o.held i c);
      sole = λ i k c h h'. ground (arith, o.sole i k c, o.held i c, o.held k c);
      kept = λ c h. ground (arith, o.kept c);
      kept_unused = λ c block h h'. ground (arith, o.kept_unused c block, o.kept c);
      apart = λ i c h. elim (Bool-cases (u.loose c)) [
        | inl k ↦ ground (arith, o.apart i c, o.kept c)
        | inr k ↦ k
      ];
      owner = λ c block h z. elim (Bool-cases (c == b)) [
        | inl e ↦ inl (j, ground arith)
        | inr e ↦
            let old : u.store.blocks c ≡ some block = rw e at h in
            elim (o.owner c block old z) [ inl (i, q) ↦ inl (i, ground arith) | inr k ↦ inr k ]
      ];
    },
  )

  assign-IsOwned : (j i : ℕ) → IsOwned n (move_assign j i u)
  unfolding move_assign
  assign-IsOwned j i = record {
    shared = o.shared;
    held = λ x c h. ground (arith, o.held x c, o.held i c, o.held j c);
    unused = λ x c block h h'.
        ground (arith, o.unused x c block, o.unused i c block, o.unused j c block);
    sole = λ x y c h h'.
        ground (
          arith,
          o.sole x y c,
          o.sole x i c,
          o.sole x j c,
          o.sole i y c,
          o.sole j y c,
          o.sole i j c,
        );
    kept = o.kept;
    kept_unused = o.kept_unused;
    apart = λ x c h. ground (arith, o.apart x c, o.apart i c, o.apart j c);
    owner = λ c block h z. elim (o.owner c block h z) [
      | inr k ↦ inr k
      | inl (k, q) ↦ elim (Bool-cases (k == i)) [
        | inl e ↦ inl (j, ground arith)
        | inr e ↦ elim (Bool-cases (k == j)) [
          | inl e' ↦ inl (i, ground arith)
          | inr e' ↦ inl (k, ground arith)
        ]
      ]
    ];
  }

  construct-IsOwned : (j i : ℕ) → u.uniques j ≡ none → IsOwned n (move_construct j i u)
  unfolding move_construct move_assign
  construct-IsOwned j i free =
      subst (λ p. IsOwned n (hold i p (hold j (u.uniques i) u))) free (assign-IsOwned j i)

  destruct-IsOwned : (i : ℕ) → (u' : Owners) × (destruct i u ≡ ok_ending u') × IsOwned n u'
  unfolding destruct destroy
  destruct-IsOwned i = elim (Option-cases (u.uniques i)) [
    | inl e ↦ (u, rw (destruct, e) refl, o)
    | inr (b, e) ↦ elim (Option-cases (u.store.blocks b)) [
      | inl gone ↦ absurd (o.held i b e gone)
      | inr (block, q) ↦ (
        hold i none (record u { store = destroy b u.store }),
        rw (destruct, e, q) refl,
        record {
          shared = destroy-IsCounted b block q (o.unused i b block e q);
          held = λ x c h. ground (arith, o.held x c, o.sole x i b);
          unused = λ x c y h h'. ground (arith, o.unused x c y);
          sole = λ x y c h h'. ground (arith, o.sole x y c);
          kept = λ c h. ground (arith, o.kept c, o.apart i b e);
          kept_unused = λ c y h h'. ground (arith, o.kept_unused c y);
          apart = λ x c h. ground (arith, o.apart x c);
          owner = λ c y h z.
              let old : u.store.blocks c ≡ some y = ground arith in
              elim (o.owner c y old z) [ inl (x, p) ↦ inl (x, ground arith) | inr k ↦ inr k ];
        },
      )
    ]
  ]

  relinquish-IsOwned : (i : ℕ) → IsOwned n (relinquish i u).1
  unfolding relinquish
  relinquish-IsOwned i = elim (Option-cases (u.uniques i)) [
    | inl e ↦
        rw (relinquish, e)
          (record {
            shared = o.shared;
            held = λ x c h. ground (arith, o.held x c);
            unused = λ x c y h h'. ground (arith, o.unused x c y);
            sole = λ x y c h h'. ground (arith, o.sole x y c);
            kept = o.kept;
            kept_unused = o.kept_unused;
            apart = λ x c h. ground (arith, o.apart x c);
            owner = λ c y h z. elim (o.owner c y h z) [
              | inl (x, p) ↦ inl (x, ground arith)
              | inr k ↦ inr k
            ];
          })
    | inr (b, e) ↦
        rw (relinquish, e)
          (record {
            shared = o.shared;
            held = λ x c h. ground (arith, o.held x c);
            unused = λ x c y h h'. ground (arith, o.unused x c y);
            sole = λ x y c h h'. ground (arith, o.sole x y c);
            kept = λ c h. ground (arith, o.kept c, o.held i b e);
            kept_unused = λ c y h h'. ground (arith, o.kept_unused c y, o.unused i c y);
            apart = λ x c h. ground (arith, o.apart x c, o.sole x i c);
            owner = λ c y h z. elim (Bool-cases (c == b)) [
              | inl same_ ↦ inr (ground arith)
              | inr other ↦ elim (o.owner c y h z) [
                | inl (x, p) ↦ inl (x, ground arith)
                | inr k ↦ inr (ground arith)
              ]
            ];
          })
  ]

  adopt-IsOwned : (j b : ℕ) → u.uniques j ≡ none → u.loose b ≡ true → IsOwned n (adopt j b u)
  unfolding adopt
  adopt-IsOwned j b free own = record {
    shared = o.shared;
    held = λ x c h. ground (arith, o.held x c, o.kept b own);
    unused = λ x c y h h'. ground (arith, o.unused x c y, o.kept_unused c y);
    sole = λ x y c h h'. ground (arith, o.sole x y c, o.apart x c, o.apart y c);
    kept = λ c h. ground (arith, o.kept c);
    kept_unused = λ c y h h'. ground (arith, o.kept_unused c y);
    apart = λ x c h. ground (arith, o.apart x c);
    owner = λ c y h z. elim (Bool-cases (c == b)) [
      | inl same_ ↦ inl (j, ground arith)
      | inr other ↦ elim (o.owner c y h z) [
        | inl (x, p) ↦ inl (x, ground arith)
        | inr k ↦ inr (ground arith)
      ]
    ];
  }

  share-IsOwned :
      (j b : ℕ)
      → j < n
      → u.store.handles j ≡ none
      → u.loose b ≡ true
      → (u' : Owners) × (share j b u ≡ ok_ending u') × IsOwned n u'
  unfolding share take increment_reference
  share-IsOwned j b l free own = elim (Option-cases (u.store.blocks b)) [
    | inl gone ↦ absurd (o.kept b own gone)
    | inr (block, q) ↦
        let unused_ : block.reference_count ≡ 0 = o.kept_unused b block own q in
        let counted_ = o.shared.counted b block q in
        (
          keep b false (record u {
            store = record u.store {
              handles = update u.store.handles j (some b);
              blocks =
                  update u.store.blocks b (
                    some (record block { reference_count = (block.reference_count + 1) % 2 ^ 32 }));
            };
          }),
          rw (share, take, q, unused_, increment_reference)
              (rw (increment_reference, q, unused_) refl),
          record {
            shared = record {
              counted = λ c y h. ground (
                arith,
                counted_,
                o.shared.counted c y,
                count-update n (points c) u.store.handles j (some b) l,
              );
              there = λ x c lx h. ground (arith, o.shared.there x c lx);
            };
            held = λ x c h. ground (arith, o.held x c);
            unused = λ x c y h h'. ground (arith, o.unused x c y, o.apart x c);
            sole = o.sole;
            kept = λ c h. ground (arith, o.kept c);
            kept_unused = λ c y h h'. ground (arith, o.kept_unused c y);
            apart = λ x c h. ground (arith, o.apart x c);
            owner = λ c y h z. elim (Bool-cases (c == b)) [
              | inl same_ ↦ absurd (ground arith)
              | inr other ↦
                  let old : u.store.blocks c ≡ some y = ground arith in
                  elim (o.owner c y old z) [ inl p ↦ inl p | inr k ↦ inr (ground arith) ]
            ];
          },
        )
  ]

  discard-IsOwned :
      (b : ℕ) → u.loose b ≡ true → (u' : Owners) × (discard b u ≡ ok_ending u') × IsOwned n u'
  unfolding discard destroy
  discard-IsOwned b own = elim (Option-cases (u.store.blocks b)) [
    | inl gone ↦ absurd (o.kept b own gone)
    | inr (block, q) ↦ (
      keep b false (record u { store = destroy b u.store }),
      rw (discard, q) refl,
      record {
        shared = destroy-IsCounted b block q (o.kept_unused b block own q);
        held = λ x c h. ground (arith, o.held x c, o.apart x c);
        unused = λ x c y h h'. ground (arith, o.unused x c y);
        sole = o.sole;
        kept = λ c h. ground (arith, o.kept c);
        kept_unused = λ c y h h'. ground (arith, o.kept_unused c y);
        apart = λ x c h. ground (arith, o.apart x c);
        owner = λ c y h z.
            let old : u.store.blocks c ≡ some y = ground arith in
            elim (o.owner c y old z) [ inl p ↦ inl p | inr k ↦ inr (ground arith) ];
      },
    )
  ]

  -- Every call that may be made of unique handles, and of the pointers that `relinquish` returns, ends
  -- without an access to a block that is not there, with `std::bad_alloc` where `malloc` fails and
  -- without an exception otherwise; and after it every block still has as many shared handles as it
  -- counts, or else exactly one unique handle, or else its pointer is the program's, and no handle
  -- points to a block that is gone.
  pub call-IsOwned :
      (c : Call) → Allowed n c u → (u' : Owners) × (call c u ≡ ending c u') × IsOwned n u'
  unfolding create_memory_block create
  call-IsOwned (create_call j none bytes) a = (u, refl, o)
  call-IsOwned (create_call j (some b) bytes) (free, gone) = create-IsOwned j b bytes free gone
  call-IsOwned (construct_call j i) free = (move_construct j i u, refl, construct-IsOwned j i free)
  call-IsOwned (assign_call j i) a = (move_assign j i u, refl, assign-IsOwned j i)
  call-IsOwned (destruct_call i) a = destruct-IsOwned i
  call-IsOwned (relinquish_call i) a = ((relinquish i u).1, refl, relinquish-IsOwned i)
  call-IsOwned (adopt_call j b) (free, own) = (adopt j b u, refl, adopt-IsOwned j b free own)
  call-IsOwned (share_call j b) (l, free, own) = share-IsOwned j b l free own
  call-IsOwned (discard_call b) own = discard-IsOwned b own
