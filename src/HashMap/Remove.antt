-- ===== src/HashMap/Remove.antt =====
-- `remove` (include/hash_map.h): the tables without the entry.
use turbokit.Base.{
  ℕ, zero, suc, ◌<◌, ◌≤◌, ◌≡◌, ◌≢◌, refl, true, false, Option, none, some, ◌==◌, arith,
  if◌then◌else◌, Bool-cases, inl, inr, ◌∙◌, sym, dec_lt,
}
use turbokit.HashMap.Types.{Traits, HashMap, MainEntry, CollisionEntry, update}
use turbokit.HashMap.Iterate.{owned, shrink, drop_alone, drop_main}
use turbokit.HashMap.Slots.{IsPowerOfTwo, slot, distance, masked-slot, slot-distance, slot-lt}
use turbokit.HashMap.Invariant.{home, IsTable, Represents, owner}
use turbokit.HashMap.Counting.{count_used-update, count_used_pos}

module _ {K V : Type 0} where
  owned-owner : (o : Option (CollisionEntry K V)) (b : ℕ) → owned o b ≡ true → owner o ≡ some b
  owned-owner none b h = cc
  owned-owner (some c) b h = ground arith

  owner-owned : (o : Option (CollisionEntry K V)) (b : ℕ) → owned o b ≡ false → owner o ≢ some b
  owner-owned none b h = λ q. cc
  owner-owned (some c) b h = λ q. ground arith

  -- The chain ends behind its last own entry.
  pub record Shrunk (n : ℕ) (f : ℕ → Option (CollisionEntry K V)) (b len r : ℕ) : Type 0 where
    pub le : r ≤ len
    pub beyond : (d : ℕ) → r ≤ d → d < len → owner (f (slot n b d)) ≢ some b
    pub last : (d : ℕ) → r ≡ suc d → owner (f (slot n b d)) ≡ some b

  shrink-Shrunk :
      (n : ℕ) (f : ℕ → Option (CollisionEntry K V)) (b len : ℕ)
      → IsPowerOfTwo n
      → b < n
      → len < n
      → Shrunk n f b len (shrink n f b len)
  unfolding shrink
  shrink-Shrunk n f b zero p hb h = record {
    le = omega arith;
    beyond = λ d l u. absurd (omega arith);
    last = λ d e. absurd (omega arith);
  }
  shrink-Shrunk n f b (suc len) p hb h =
      let at = masked-slot n b len p hb (omega arith) in
      rw at (elim (Bool-cases (owned (f (slot n b len)) b)) [
        | inl own ↦ rw own (record {
          le = omega arith;
          beyond = λ d l u. absurd (omega arith);
          last = λ d e.
              let same : d ≡ len = omega arith in rw same (owned-owner (f (slot n b len)) b own);
        })
        | inr other ↦ rw other (
            let rest = shrink-Shrunk n f b len p hb (omega arith) in
            record {
              le = omega (arith, rest.le);
              beyond = λ d l u. elim (Bool-cases (d == len)) [
                | inl s ↦
                    let same : d ≡ len = ground arith in
                    rw same (owner-owned (f (slot n b len)) b other)
                | inr s ↦ rest.beyond d l (ground arith)
              ];
              last = rest.last;
            })
      ])

module _ {K V : Type 0} ⦃t : Traits K⦄ where
  -- The map without `k`.
  abbrev pub erase : (K → Option V) → K → K → Option V
  erase f k j = if t.equal k j then none else f j

  module _ (m : HashMap K V) (f : K → Option V) (b : ℕ) (e : MainEntry K V) (r : Represents m f)
      (h : m.main_table b ≡ some e) where
    open r use {table}

    pub b-lt : b < m.bucket_count
    b-lt = (table.at_home b e h).0

    pub main_key : (x : ℕ) (e' : MainEntry K V) → m.main_table x ≡ some e' → e'.key ≡ e.key → x ≡ b
    main_key x e' h' same =
        let there = (table.at_home x e' h').1 in
        let here = (table.at_home b e h).1 in let q = rw same at there in sym q ∙ here

    pub drop_alone-Represents : e.chain_length ≡ 0 → Represents (drop_alone b m) (erase f e.key)
    unfolding drop_alone
    drop_alone-Represents short = record {
      table = record {
        allocated = table.allocated;
        power = table.power;
        at_home = λ x e' h'. ground (arith, table.at_home x e');
        chained = λ i c hc. ground (arith, table.chained i c hc);
        ends = λ x d hx q. ground (arith, table.ends x d hx);
        apart = λ x i e' c h' hc. ground (arith, table.apart x i e' c);
        unique = table.unique;
        counted =
            ground
              (arith, table.counted, count_used-update m.bucket_count m.main_table b none b-lt);
      };
      main = λ x e' h'. ground (arith, r.main x e', main_key x e', t.equal_iff e.key e'.key);
      collision = λ i c hc.
          ground (arith, r.collision i c hc, table.apart b i e c h hc, t.equal_iff e.key c.key);
      absent = λ j out. elim (Bool-cases (t.equal e.key j)) [
        | inl same ↦ rw same refl
        | inr other ↦
            let before = r.absent j (record {
              main = λ x e' h' q. ground (arith, out.main x e', t.equal_iff e.key j);
              collision = out.collision;
            }) in
            rw other before
      ];
    }

    -- The chain's last entry.
    module _ (len : ℕ) (long : e.chain_length ≡ suc len) (last : CollisionEntry K V)
        (hl : m.collision_table (slot m.bucket_count b len) ≡ some last) where
      abbrev s : ℕ
      s = slot m.bucket_count b len

      pub len-lt : suc len < m.bucket_count
      len-lt = omega (arith, (table.at_home b e h).2, long)

      pub s-lt : s < m.bucket_count
      s-lt = slot-lt m.bucket_count b len b-lt (omega (arith, len-lt))

      pub last-owner : last.main_index ≡ b
      last-owner = let own = table.ends b len b-lt (ground arith) in let q = rw hl at own in cc q

      pub last-home : home m last.key ≡ b
      last-home = (table.chained s last hl).2 ∙ last-owner

      abbrev cut : ℕ → Option (CollisionEntry K V)
      cut = update m.collision_table s none

      pub shrunk :
          (g : ℕ → Option (CollisionEntry K V))
          → Shrunk m.bucket_count g b len (shrink m.bucket_count g b len)
      shrunk g = shrink-Shrunk m.bucket_count g b len table.power b-lt (omega (arith, len-lt))

      pub within :
          (i : ℕ) (c : CollisionEntry K V) (g : ℕ → Option (CollisionEntry K V))
          → m.collision_table i ≡ some c
          → owner (g i) ≡ some b
          → i ≢ s
          → c.main_index ≡ b
          → distance m.bucket_count b i < shrink m.bucket_count g b len
      within i c g hi hg ne own =
          let x = shrunk g in
          let (lt, lt2, there, near) = table.chained i c hi in
          let near' : distance m.bucket_count b i < suc len = ground (arith, near, own, h, long) in
          let at = slot-distance m.bucket_count b i b-lt lt in
          let beyond = x.beyond (distance m.bucket_count b i) in
          elim (dec_lt (distance m.bucket_count b i) (shrink m.bucket_count g b len)) [
            | yes l ↦ l
            | no l ↦ elim (dec_lt (distance m.bucket_count b i) len) [
              | yes l2 ↦ let q = beyond (omega arith) l2 in absurd ((rw at at q) hg)
              | no l2 ↦
                  let d : distance m.bucket_count b i ≡ len = omega arith in
                  absurd (ne (sym (rw d at at)))
            ]
          ]

      -- The last entry moves to the main table.
      pub drop_main-IsTable : IsTable (drop_main b len s last m)
      unfolding drop_main
      drop_main-IsTable =
          let x = shrunk cut in
          record {
            allocated = table.allocated;
            power = table.power;
            at_home = λ y e' h'. ground (arith, table.at_home y e', b-lt, last-home, x.le, len-lt);
            chained = λ i c hc. elim (Bool-cases (c.main_index == b)) [
              | inl own ↦
                  let (lt, lt2, there, near) = table.chained i c (ground arith) in
                  let mine : c.main_index ≡ b = ground arith in
                  let w = within i c cut (ground arith) (ground arith) (ground arith) mine in
                  (lt, lt2, there, ground arith)
              | inr other ↦
                  let (lt, lt2, there, near) = table.chained i c (ground arith) in
                  (lt, lt2, there, ground arith)
            ];
            ends = λ y d hy q. elim (Bool-cases (y == b)) [
              | inl own ↦ let same : y ≡ b = ground arith in rw same (x.last d (ground arith))
              | inr other ↦
                  let before = table.ends y d hy (ground arith) in
                  elim (Bool-cases (slot m.bucket_count y d == s)) [
                    | inl at ↦
                        let at_s : slot m.bucket_count y d ≡ s = ground arith in
                        let p = rw (at_s, hl, last-owner) at before in absurd (ground (arith, p))
                    | inr ne ↦ rw ne before
                  ]
            ];
            apart = λ y i e' c h' hc. ground (arith, table.apart y i e' c, table.unique s i last c);
            unique = λ y i c c' h' hc same. ground (arith, table.unique y i c c');
            counted = ground (
              arith,
              table.counted,
              count_used-update m.bucket_count m.main_table b
                  (some (record {
                    key = last.key;
                    value = last.value;
                    chain_length = shrink m.bucket_count cut b len;
                  }))
                  b-lt,
              count_used-update m.bucket_count m.collision_table s none s-lt,
              count_used_pos m.bucket_count m.main_table b e b-lt h,
            );
          }

      pub drop_main-Represents : Represents (drop_main b len s last m) (erase f e.key)
      unfolding drop_main
      drop_main-Represents = record {
        table = drop_main-IsTable;
        main = λ y e' h'. ground (
          arith,
          r.main y e',
          main_key y e',
          r.collision s last hl,
          table.apart b s e last h hl,
          t.equal_iff e.key e'.key,
          t.equal_iff e.key last.key,
        );
        collision = λ i c hc.
            ground (arith, r.collision i c, table.apart b i e c h, t.equal_iff e.key c.key);
        absent = λ j out. elim (Bool-cases (t.equal e.key j)) [
          | inl same ↦ rw same refl
          | inr other ↦
              let moved : last.key ≢ j =
                out.main b
                  (record {
                    key = last.key;
                    value = last.value;
                    chain_length = shrink m.bucket_count cut b len;
                  })
                  (ground arith) in
              let before = r.absent j (record {
                main = λ y e' h' q. ground (arith, out.main y e', t.equal_iff e.key j);
                collision = λ i c hc q. ground (arith, out.collision i c);
              }) in
              rw other before
        ];
      }
