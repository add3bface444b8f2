-- ===== src/HashMap/RemoveCollision.antt =====
-- `remove` (include/hash_map.h) of an entry of the collision table.
use turbokit.Base.{
  ℕ, suc, ◌+◌, ◌-◌, ◌≡◌, ◌≢◌, refl, Option, none, some, ◌==◌, arith, if◌then◌else◌, Bool-cases, inl,
  inr, fun_ext,
}
use turbokit.HashMap.Types.{Traits, HashMap, MainEntry, CollisionEntry, update}
use turbokit.HashMap.Iterate.{shrink, drop_collision}
use turbokit.HashMap.Slots.{slot}
use turbokit.HashMap.Invariant.{IsTable, Represents, count_used}
use turbokit.HashMap.Counting.{count_used-update, count_used_pos}
use turbokit.HashMap.Remove.{erase, b-lt, len-lt, s-lt, last-owner, last-home, shrunk, within}

module _ {K V : Type 0} ⦃t : Traits K⦄ where
  module _ (m : HashMap K V) (f : K → Option V) (b : ℕ) (e : MainEntry K V) (r : Represents m f)
      (h : m.main_table b ≡ some e) (len : ℕ) (long : e.chain_length ≡ suc len)
      (last : CollisionEntry K V) (hl : m.collision_table (slot m.bucket_count b len) ≡ some last)
      (i : ℕ) (c : CollisionEntry K V) (hi : m.collision_table i ≡ some c)
      (own : c.main_index ≡ b) where
    open r use {table}

    abbrev s : ℕ
    s = slot m.bucket_count b len

    abbrev filled : CollisionEntry K V
    filled = record c { key = last.key; value = last.value }

    -- The collision table afterwards, in one form for both branches.
    abbrev left : ℕ → Option (CollisionEntry K V)
    left = update (update m.collision_table i (some filled)) s none

    left-eq :
        update
          (if s == i then m.collision_table else update m.collision_table i (some filled))
          s
          none
        ≡ left
    left-eq = fun_ext (λ j. ground arith)

    abbrev chain : ℕ
    chain = shrink m.bucket_count left b len

    abbrev short : MainEntry K V
    short = record e { chain_length = chain }

    abbrev result : HashMap K V
    result = record m {
      element_count = m.element_count - 1;
      main_table = update m.main_table b (some short);
      collision_table = left;
    }

    drop_collision-eq : drop_collision b i len s e c last m ≡ result
    unfolding drop_collision
    drop_collision-eq = rw left-eq refl

    keys_apart : i ≢ s → c.key ≢ last.key
    keys_apart ne q = ne (table.unique i s c last hi hl q)

    counted_left :
        result.element_count
        ≡ count_used m.bucket_count result.main_table + count_used m.bucket_count left
    counted_left =
        let lt = (table.chained i c hi).0 in
        let bound = s-lt m f b e r h len long last hl in
        let one = count_used-update m.bucket_count m.collision_table i (some filled) lt in
        let two =
          count_used-update m.bucket_count (update m.collision_table i (some filled)) s none
            bound in
        let main =
          count_used-update m.bucket_count m.main_table b (some short) (b-lt m f b e r h) in
        let pos = count_used_pos m.bucket_count m.main_table b e (b-lt m f b e r h) h in
        ground (arith, table.counted)

    result-IsTable : IsTable result
    result-IsTable =
        let x = shrunk m f b e r h len long last hl left in
        let mine = last-owner m f b e r h len long last hl in
        record {
          allocated = table.allocated;
          power = table.power;
          at_home = λ y e' h'. ground (
            arith,
            table.at_home y e',
            table.at_home b e h,
            x.le,
            len-lt m f b e r h len long last hl,
          );
          chained = λ j c' hc. elim (Bool-cases (j == i)) [
            | inl at ↦
                let same : j ≡ i = ground arith in
                let here : c' ≡ filled = ground arith in
                let ne : i ≢ s = ground arith in
                let (lt, lt2, there, near) = table.chained i c hi in
                let w = within m f b e r h len long last hl i c left hi (ground arith) ne own in
                rw (same, here, own)
                  (lt, b-lt m f b e r h, last-home m f b e r h len long last hl, ground arith)
            | inr other ↦
                let before : m.collision_table j ≡ some c' = ground arith in
                let (lt, lt2, there, near) = table.chained j c' before in
                elim (Bool-cases (c'.main_index == b)) [
                  | inl at_b ↦
                      let same : c'.main_index ≡ b = ground arith in
                      let w =
                        within m f b e r h len long last hl j c' left before (ground arith)
                          (ground arith) same in
                      (lt, lt2, there, ground arith)
                  | inr ne ↦ (lt, lt2, there, ground arith)
                ]
          ];
          ends = λ y d hy q. elim (Bool-cases (y == b)) [
            | inl at ↦ let same : y ≡ b = ground arith in rw same (x.last d (ground arith))
            | inr other ↦
                let before = table.ends y d hy (ground arith) in
                elim (Bool-cases (slot m.bucket_count y d == s)) [
                  | inl at ↦
                      let at_s : slot m.bucket_count y d ≡ s = ground arith in
                      let p = rw (at_s, hl, mine) at before in absurd (ground (arith, p))
                  | inr ne ↦ elim (Bool-cases (slot m.bucket_count y d == i)) [
                    | inl at ↦
                        let at_i : slot m.bucket_count y d ≡ i = ground arith in
                        let p = rw (at_i, hi, own) at before in absurd (ground (arith, p))
                    | inr ne' ↦ rw (ne, ne') before
                  ]
                ]
          ];
          apart = λ y j e' c' h' hc. ground (
            arith,
            table.apart y j e' c',
            table.apart b j e c',
            table.apart y s e' last,
            table.apart b s e last,
          );
          unique = λ y j c' d h' hc same.
              ground
                (arith, table.unique y j c' d, table.unique s j last d, table.unique y s c' last);
          counted = counted_left;
        }

    result-Represents : Represents result (erase f c.key)
    result-Represents = record {
      table = result-IsTable;
      main = λ y e' h'. ground (
        arith,
        r.main y e',
        r.main b e h,
        table.apart b i e c h hi,
        table.apart y i e' c,
        t.equal_iff c.key e'.key,
        t.equal_iff c.key e.key,
      );
      collision = λ j c' hc. ground (
        arith,
        r.collision j c',
        r.collision s last hl,
        table.unique i j c c' hi,
        keys_apart,
        t.equal_iff c.key c'.key,
        t.equal_iff c.key last.key,
      );
      absent = λ j out. elim (Bool-cases (t.equal c.key j)) [
        | inl same ↦ rw same refl
        | inr other ↦
            let mine : e.key ≢ j = out.main b short (ground arith) in
            let before = r.absent j (record {
              main = λ y e' h' q. ground (arith, out.main y e');
              collision = λ y c' hc q.
                  ground (arith, out.collision y c', out.collision i filled, t.equal_iff c.key j);
            }) in
            rw other before
      ];
    }

    -- Removing an entry of the chain of bucket `b`.
    pub drop_collision-Represents : Represents (drop_collision b i len s e c last m) (erase f c.key)
    drop_collision-Represents = rw drop_collision-eq result-Represents
