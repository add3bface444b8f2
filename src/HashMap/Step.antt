-- ===== src/HashMap/Step.antt =====
-- Where `operator++` and `begin` (include/hash_map.h) lead.
use turbokit.Base.{
  ℕ, zero, suc, ◌+◌, ◌-◌, ◌<◌, ◌≤◌, ◌≡◌, refl, Option, none, some, ◌==◌, arith, Bool-cases,
  Option-cases, inl, inr,
}
use turbokit.HashMap.Types.{
  HashMap, MainEntry, CollisionEntry, Place, null, in_main, in_collision, Iterator, iterator,
}
use turbokit.HashMap.Iterate.{scan, next_main, next_collision, increment}

-- No entry in use from `i` on and below `j`.
abbrev pub Gap {ℓ} : {A : Type ℓ} → (ℕ → Option A) → ℕ → ℕ → Type ℓ
Gap f i j = (x : ℕ) → i ≤ x → x < j → f x ≡ none

pub Gap-empty : {A : Type 0} (f : ℕ → Option A) (i j : ℕ) → j ≤ i → Gap f i j
Gap-empty f i j h x l u = absurd (omega arith)

pub Gap-cons : {A : Type 0} (f : ℕ → Option A) (i j : ℕ) → f i ≡ none → Gap f (i + 1) j → Gap f i j
Gap-cons f i j e g x l u = elim (Bool-cases (x == i)) [
  | inl s ↦ let same : x ≡ i = ground arith in rw same e
  | inr s ↦ g x (ground arith) u
]

module _ {K V : Type 0} where
  -- The next entry of the collision table from `i` on, or the null pointer.
  pub data InCollision (m : HashMap K V) (b : Option ℕ) (i : ℕ) : Iterator → Type 0 where
    at :
        (j : ℕ) (c : CollisionEntry K V)
        → i ≤ j
        → j < m.bucket_count
        → m.collision_table j ≡ some c
        → Gap m.collision_table i j
        → InCollision m b i (iterator b (some j) (in_collision j))
    past :
        (j : ℕ)
        → Gap m.collision_table i m.bucket_count
        → InCollision m b i (iterator b (some j) null)

  -- The next entry of the main table from `i` on, or else the first one of the collision table.
  pub data InMain (m : HashMap K V) (i : ℕ) : Iterator → Type 0 where
    at :
        (j : ℕ) (e : MainEntry K V)
        → i ≤ j
        → j < m.bucket_count
        → m.main_table j ≡ some e
        → Gap m.main_table i j
        → InMain m i (iterator (some j) none (in_main j))
    over :
        {it : Iterator}
        → Gap m.main_table i m.bucket_count
        → InCollision m none 0 it
        → InMain m i it

  next_collision-InCollision :
      (m : HashMap K V) (fuel : ℕ) (b : Option ℕ) (i : ℕ)
      → i < m.bucket_count
      → m.bucket_count ≤ fuel + i
      → (it : Iterator) × (next_collision m fuel b i ≡ some it) × InCollision m b (i + 1) it
  unfolding next_collision
  next_collision-InCollision m zero b i lt h = absurd (omega arith)
  next_collision-InCollision m (suc fuel) b i lt h = elim (Bool-cases (i == m.bucket_count - 1)) [
    | inl stop ↦ rw stop (
      iterator b (some i) null,
      refl,
      past i (Gap-empty m.collision_table (i + 1) m.bucket_count (ground arith)),
    )
    | inr go ↦ elim (Option-cases (m.collision_table (i + 1))) [
      | inr (c, e) ↦
          rw (go, e)
            (
              iterator b (some (i + 1)) (in_collision (i + 1)),
              refl,
              at (i + 1) c (omega arith) (ground arith) e
                  (Gap-empty m.collision_table (i + 1) (i + 1) (omega arith)),
            )
      | inl e ↦
          let (it, ran, x) =
            next_collision-InCollision m fuel b (i + 1) (ground arith) (omega arith) in
          rw (go, e) (it, ran, behind e x)
    ]
  ]
    where
      behind :
          {it : Iterator}
          → m.collision_table (i + 1) ≡ none
          → InCollision m b (i + 1 + 1) it
          → InCollision m b (i + 1) it
      behind e (at j c l u q g) =
          at j c (omega arith) u q (Gap-cons m.collision_table (i + 1) j e g)
      behind e (past j g) = past j (Gap-cons m.collision_table (i + 1) m.bucket_count e g)

  first_collision :
      (m : HashMap K V)
      → 0 < m.bucket_count
      → (it : Iterator) × (elim (m.collision_table 0) [
        | none ↦ next_collision m m.bucket_count none 0
        | some c ↦ some (iterator none (some 0) (in_collision 0))
      ]
          ≡ some it)
        × InCollision m none 0 it
  first_collision m pos = elim (Option-cases (m.collision_table 0)) [
    | inr (c, e) ↦ rw e (
      iterator none (some 0) (in_collision 0),
      refl,
      at 0 c (omega arith) pos e (Gap-empty m.collision_table 0 0 (omega arith)),
    )
    | inl e ↦
        let (it, ran, x) = next_collision-InCollision m m.bucket_count none 0 pos (omega arith) in
        rw e (it, ran, behind e x)
  ]
    where
      behind :
          {it : Iterator}
          → m.collision_table 0 ≡ none
          → InCollision m none 1 it
          → InCollision m none 0 it
      behind e (at j c l u q g) = at j c (omega arith) u q (Gap-cons m.collision_table 0 j e g)
      behind e (past j g) = past j (Gap-cons m.collision_table 0 m.bucket_count e g)

  next_main-InMain :
      (m : HashMap K V) (fuel i : ℕ)
      → i < m.bucket_count
      → m.bucket_count ≤ fuel + i
      → (it : Iterator) × (next_main m fuel i ≡ some it) × InMain m (i + 1) it
  unfolding next_main
  next_main-InMain m zero i lt h = absurd (omega arith)
  next_main-InMain m (suc fuel) i lt h = elim (Bool-cases (i == m.bucket_count - 1)) [
    | inl stop ↦
        let (it, ran, x) = first_collision m (omega arith) in
        rw stop (it, ran, over (Gap-empty m.main_table (i + 1) m.bucket_count (ground arith)) x)
    | inr go ↦ elim (Option-cases (m.main_table (i + 1))) [
      | inr (c, e) ↦
          rw (go, e)
            (
              iterator (some (i + 1)) none (in_main (i + 1)),
              refl,
              at (i + 1) c (omega arith) (ground arith) e
                  (Gap-empty m.main_table (i + 1) (i + 1) (omega arith)),
            )
      | inl e ↦
          let (it, ran, x) = next_main-InMain m fuel (i + 1) (ground arith) (omega arith) in
          rw (go, e) (it, ran, behind e x)
    ]
  ]
    where
      behind :
          {it : Iterator}
          → m.main_table (i + 1) ≡ none
          → InMain m (i + 1 + 1) it
          → InMain m (i + 1) it
      behind e (at j c l u q g) = at j c (omega arith) u q (Gap-cons m.main_table (i + 1) j e g)
      behind e (over g x) = over (Gap-cons m.main_table (i + 1) m.bucket_count e g) x

  -- The iterator that `operator++` makes of one to an entry of the main table.
  pub increment-InMain :
      (m : HashMap K V) (b : ℕ) (p : Place)
      → b < m.bucket_count
      → (it : Iterator) × (increment m (iterator (some b) none p) ≡ some it) × InMain m (b + 1) it
  unfolding increment
  increment-InMain m b p lt = next_main-InMain m m.bucket_count b lt (omega arith)

  -- The iterator that `operator++` makes of one to an entry of the collision table.
  pub increment-InCollision :
      (m : HashMap K V) (b : Option ℕ) (i : ℕ) (p : Place)
      → i < m.bucket_count
      → (it : Iterator) × (increment m (iterator b (some i) p) ≡ some it)
        × InCollision m b (i + 1) it
  unfolding increment
  increment-InCollision m b i p lt =
      next_collision-InCollision m m.bucket_count b i lt (omega arith)

-- `scan` finds the first entry in use.
pub data Scanned {A : Type 0} (g : ℕ → Option A) (i j : ℕ) : Option ℕ → Type 0 where
  first : (x : ℕ) (a : A) → g x ≡ some a → Gap g i x → Scanned g i j (some x)
  nowhere : Gap g i j → Scanned g i j none

pub scan-Scanned :
    {A : Type 0} (g : ℕ → Option A) (rounds i j : ℕ)
    → i + rounds ≡ j
    → Scanned g i j (scan g rounds i)
unfolding scan
scan-Scanned g zero i j h = nowhere (Gap-empty g i j (omega arith))
scan-Scanned g (suc rounds) i j h = elim (Option-cases (g i)) [
  | inr (a, e) ↦ rw (e, scan) (first i a e (Gap-empty g i i (omega arith)))
  | inl e ↦ rw (e, scan) (further (scan-Scanned g rounds (i + 1) j (omega arith)) e)
]
  where
    further : {o : Option ℕ} → Scanned g (i + 1) j o → g i ≡ none → Scanned g i j o
    further (first x a q gap) e = first x a q (Gap-cons g i x e gap)
    further (nowhere gap) e = nowhere (Gap-cons g i j e gap)
