-- ===== src/HashMap/Clear.antt =====
-- `clear` (include/hash_map.h) ends, and leaves no element.
use turbokit.Base.{
  ℕ, zero, suc, ◌≤◌, ◌≡◌, refl, true, Option, none, some, arith, Option-cases, inl, inr, fun_ext,
}
use turbokit.HashMap.Types.{
  Traits, HashMap, MainEntry, null, in_main, in_collision, Iterator, iterator, end, update, new,
}
use turbokit.HashMap.Iterate.{scan, begin, drop_alone, drop_main, shrink, clear_loop, clear}
use turbokit.HashMap.Slots.{slot}
use turbokit.HashMap.Invariant.{Represents}
use turbokit.HashMap.Counting.{count_used-gap, count_used_pos}
use turbokit.HashMap.Remove.{erase, b-lt}
use turbokit.HashMap.Step.{Gap, InCollision, at, over, past, Scanned, first, nowhere, scan-Scanned}
use turbokit.HashMap.RemoveMain.{Removed, FromMain, alone, chained, remove_main-FromMain}
use turbokit.HashMap.TryInsert.{Stands, empty, tables}

-- `begin` from what the two scans find.
abbrev pub begin_at : Option ℕ → Option ℕ → Iterator
begin_at (some i) o = iterator (some i) none (in_main i)
begin_at none (some i) = iterator (some i) (some i) (in_collision i)
begin_at none none = end

pub begin-new : (K V : Type 0) → (begin (new {K = K} {V = V})).value_ptr ≡ null
unfolding begin
begin-new K V = refl

module _ {K V : Type 0} ⦃t : Traits K⦄ where
  -- No element is left, in tables of as many buckets as before.
  pub record Cleared (n : ℕ) (m' : HashMap K V) : Type 0 where
    pub stands : Stands m' (λ k. none)
    pub count : m'.element_count ≡ 0
    pub buckets : m'.bucket_count ≡ n

  pub no_collision :
      (m : HashMap K V) (f : K → Option V)
      → Represents m f
      → Gap m.main_table 0 m.bucket_count
      → (i : ℕ) → m.collision_table i ≡ none
  no_collision m f r gap i = elim (Option-cases (m.collision_table i)) [
    | inl e ↦ e
    | inr (c, e) ↦
        let (lt, lt2, there, near) = r.table.chained i c e in
        let free = gap c.main_index (omega arith) lt2 in absurd (ground (arith, near))
  ]

  Cleared-Gap :
      (m : HashMap K V) (f : K → Option V)
      → Represents m f
      → Gap m.main_table 0 m.bucket_count
      → Cleared m.bucket_count m
  Cleared-Gap m f r gap =
      let free = no_collision m f r gap in
      let out : f ≡ (λ k. none) = fun_ext (λ k. r.absent k (record {
        main = λ b e h. let lt = (r.table.at_home b e h).0 in let q = gap b (omega arith) lt in cc;
        collision = λ i c h. let q = free i in cc;
      })) in
      record {
        stands = tables (rw out at r);
        count = omega (
          arith,
          r.table.counted,
          count_used-gap m.bucket_count m.main_table (λ x l. gap x (omega arith) l),
          count_used-gap m.bucket_count m.collision_table (λ x l. free x),
        );
        buckets = refl;
      }

  InCollision-null :
      (m : HashMap K V) (b : Option ℕ) (i : ℕ) {it : Iterator}
      → ((j : ℕ) → m.collision_table j ≡ none)
      → InCollision m b i it
      → it.value_ptr ≡ null
  InCollision-null m b i free (at j c l u q g) = let e = free j in cc
  InCollision-null m b i free (past j g) = refl

  clear_loop-null :
      (fuel : ℕ) (m : HashMap K V) (it : Iterator)
      → it.value_ptr ≡ null
      → clear_loop fuel m it ≡ some m
  unfolding clear_loop
  clear_loop-null zero m it q = rw (q, clear_loop) refl
  clear_loop-null (suc fuel) m it q = rw (q, clear_loop) refl

module _ (K V : Type 0) ⦃t : Traits K⦄ where
  -- What the loop does from an entry of the main table with no entry before it.
  abbrev Clears : ℕ → Type 0
  Clears fuel =
      (m : HashMap K V) (f : K → Option V) (b : ℕ) (e : MainEntry K V)
      → Represents m f
      → m.main_table b ≡ some e
      → Gap m.main_table 0 b
      → m.element_count ≤ fuel
      → (m' : HashMap K V) × (clear_loop fuel m (iterator (some b) none (in_main b)) ≡ some m')
        × Cleared m.bucket_count m'

module _ {K V : Type 0} ⦃t : Traits K⦄ where
  clear_next :
      (fuel : ℕ)
      → Clears K V fuel
      → (m : HashMap K V) (f : K → Option V) (b : ℕ) (e : MainEntry K V) (r : Represents m f)
        (h : m.main_table b ≡ some e)
      → Gap m.main_table 0 b
      → m.element_count ≤ suc fuel
      → {res : HashMap K V × Iterator} → FromMain m f r b e h res
      → Removed m f e.key res.0
      → (m' : HashMap K V) × (clear_loop fuel res.0 res.1 ≡ some m') × Cleared m.bucket_count m'
  unfolding drop_alone drop_main
  clear_next fuel go m f b e r h gap few (chained len last) removed =
      let index = slot m.bucket_count b len in
      let chain = shrink m.bucket_count (update m.collision_table index none) b len in
      go (drop_main b len index last m) (erase f e.key) b
        (record { key = last.key; value = last.value; chain_length = chain }) removed.represents
        (ground arith) (λ x l u. ground (arith, gap x l u)) (omega arith)
  clear_next fuel go m f b e r h gap few (alone q (at j e' l u h' g)) removed =
      go (drop_alone b m) (erase f e.key) j e' removed.represents (ground arith)
        (λ x lx ux. ground (arith, gap x, g x)) (omega arith)
  clear_next fuel go m f b e r h gap few (alone {next} q (over g x)) removed =
      let out : Gap (drop_alone b m).main_table 0 m.bucket_count =
        λ y l u. ground (arith, gap y, g y) in
      let free = no_collision (drop_alone b m) (erase f e.key) removed.represents out in
      let stop = InCollision-null m none 0 free x in
      (
        drop_alone b m,
        clear_loop-null fuel (drop_alone b m) next stop,
        Cleared-Gap (drop_alone b m) (erase f e.key) removed.represents out,
      )

  clear_loop-Clears : (fuel : ℕ) → Clears K V fuel
  unfolding clear_loop
  clear_loop-Clears zero m f b e r h gap few = absurd (
      omega (
        arith,
        r.table.counted,
        count_used_pos m.bucket_count m.main_table b e (b-lt m f b e r h) h,
      ))
  clear_loop-Clears (suc fuel) m f b e r h gap few =
      let (res, ran, removed, from) = remove_main-FromMain m f r b e h in
      let (m', rest, done) =
        clear_next fuel (clear_loop-Clears fuel) m f b e r h gap few from removed in
      (m', rw (ran, clear_loop) rest, done)

  clear_tables :
      (m : HashMap K V) (f : K → Option V)
      → Represents m f
      → {o o' : Option ℕ} → Scanned m.main_table 0 m.bucket_count o
      → Scanned m.collision_table 0 m.bucket_count o'
      → (m' : HashMap K V) × (clear_loop m.element_count m (begin_at o o') ≡ some m')
        × Cleared m.bucket_count m'
  clear_tables m f r (first b e h gap) found =
      clear_loop-Clears m.element_count m f b e r h gap (omega arith)
  clear_tables m f r (nowhere gap) (first x a h g) = let e = no_collision m f r gap x in cc
  clear_tables m f r (nowhere gap) (nowhere g) =
      (m, clear_loop-null m.element_count m end refl, Cleared-Gap m f r gap)

  pub begin-begin_at :
      (m : HashMap K V)
      → m.allocated ≡ true
      → begin m
        ≡ begin_at (scan m.main_table m.bucket_count 0) (scan m.collision_table m.bucket_count 0)
  unfolding begin
  begin-begin_at m h = simp h (elim (Option-cases (scan m.main_table m.bucket_count 0)) [
    | inr (i, e) ↦ rw e refl
    | inl e ↦ rw e (elim (Option-cases (scan m.collision_table m.bucket_count 0)) [
      | inr (i, e') ↦ rw e' refl
      | inl e' ↦ rw e' refl
    ])
  ])

  -- `clear` ends, on a map without tables and on tables that hold any map; none of its steps reads an
  -- entry that is not there; no element is left, and the tables are well formed, with as many buckets
  -- as before.
  pub clear-Cleared :
      (m : HashMap K V) (f : K → Option V)
      → Stands m f
      → (m' : HashMap K V) × (clear m ≡ some m') × Cleared m.bucket_count m'
  unfolding clear
  clear-Cleared m f empty = (
    new,
    clear_loop-null 0 new (begin new) (begin-new K V),
    record { stands = empty; count = refl; buckets = refl },
  )
  clear-Cleared m f (tables r) =
      let mains = scan-Scanned m.main_table m.bucket_count 0 m.bucket_count (omega arith) in
      let others = scan-Scanned m.collision_table m.bucket_count 0 m.bucket_count (omega arith) in
      rw (begin-begin_at m r.table.allocated) (clear_tables m f r mains others)
