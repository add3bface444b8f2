-- ===== src/HashMap/Start.antt =====
-- `try_insert` (include/hash_map.h) from its start, where `find` tells whether the key is there.
use turbokit.Base.{
  ℕ, zero, suc, ◌+◌, ◌*◌, ◌≤◌, ◌≡◌, refl, Bool, false, Option, none, some, ltb, arith,
  if◌then◌else◌, ◌∙◌, sym, ap, Bool-cases, inl, inr, dec_lt,
}
use turbokit.HashMap.Types.{Traits, HashMap, Iterator, null}
use turbokit.HashMap.Find.{find}
use turbokit.HashMap.Insert.{Result, ok, ◌>>=◌, reserve, start, resized, run}
use turbokit.HashMap.Invariant.{Represents}
use turbokit.HashMap.Lookup.{
  Found, main_hit, collision_hit, vacant, behind, find-Found, find-entry_at, with_key,
}
use turbokit.HashMap.Rehash.{Good, Inserted}
use turbokit.HashMap.Run.{
  Suffices, Start, Again, More, More-zero, More-suc, Good-weaken, again_lem, insert_new-some,
}

module _ {K V : Type 0} ⦃t : Traits K⦄ where
  -- How a call goes on behind `find`.
  abbrev pub miss : ℕ → HashMap K V → K → V → Result (HashMap K V × Iterator × Bool)
  miss fuel m k v =
      (if ltb m.bucket_count (m.element_count + 1)
        then reserve (run fuel start) (m.element_count + 1) m
        else ok m)
      >>= λ m2. run fuel resized m2 k v

  abbrev pub after : ℕ → HashMap K V → K → V → Iterator → Result (HashMap K V × Iterator × Bool)
  after fuel m k v it = elim it.value_ptr [ null ↦ miss fuel m k v | _ ↦ ok (m, it, false) ]

  -- What `find` tells `try_insert`: the key's entry, or that there is none.
  pub data Looked (m : HashMap K V) (g : K → Option V) (k : K) (fuel : ℕ) (v : V) (it : Iterator)
      : Type 0 where
    present :
        (w : V) → g k ≡ some w → after fuel m k v it ≡ ok (m, it, false) → Looked m g k fuel v it
    missing : g k ≡ none → after fuel m k v it ≡ miss fuel m k v → Looked m g k fuel v it

  pub look :
      (m : HashMap K V) (g : K → Option V) (k : K) (fuel : ℕ) (v : V) {it : Iterator}
      → Represents m g
      → Found m k it
      → Looked m g k fuel v it
  look m g k fuel v r (main_hit e h same) = present e.value (rw same at (r.main _ e h)) refl
  look m g k fuel v r (collision_hit i c h same) =
      present c.value (rw same at (r.collision i c h)) refl
  look m g k fuel v r (vacant h a) = missing (r.absent k a) refl
  look m g k fuel v r (behind e h a) = missing (r.absent k a) refl

  module _ (high limit : ℕ) (s : Suffices t.entry_size high limit) where
    Inserted-weaken :
        (low low' : ℕ) (m : HashMap K V) (g : K → Option V) (k : K) (v : V)
        (r : HashMap K V × Iterator × Bool)
        → low' ≤ low
        → Inserted low high m g k v r
        → Inserted low' high m g k v r
    Inserted-weaken low low' m g k v r h i = record {
      good = Good-weaken high limit s h i.good;
      grown = i.grown;
      points = i.points;
      flag = i.flag;
    }

    missed :
        (l : ℕ)
        → More K V high limit l
        → Again K V high limit l
        → (fuel low : ℕ) → 2 * l + 1 ≤ fuel
        → (m : HashMap K V) (g : K → Option V) (k : K) (v : V) (x : Good low high m g)
        → high ≤ low + l
        → m.element_count + 1 ≤ limit
        → g k ≡ none
        → (r : HashMap K V × Iterator × Bool) × (miss fuel m k v ≡ ok r)
          × Inserted low high m g k v r
    missed l more ag fuel low hf m g k v x left few out =
        elim (Bool-cases (ltb m.bucket_count (m.element_count + 1))) [
          | inl full ↦ rw full (elim (dec_lt x.log high) [
            | yes lt ↦
                let (r, ran, i) =
                  more fuel (m.element_count + 1) (omega arith) m g k v x.represents x.log x.size lt
                    (omega (arith, x.at_least)) (ground arith) (omega (arith, s.load)) (omega arith)
                    few out in
                (r, ran, Inserted-weaken (x.log + 1) low m g k v r (omega (arith, x.at_least)) i)
            | no ge ↦
                let top : x.log ≡ high = omega (arith, x.at_most) in
                absurd (ground (arith, s.load, rw top at x.size))
          ])
          | inr room ↦
              rw room (ag fuel low hf m g k v x (omega (arith, x.at_least)) few (ground arith) out)
        ]

    pub Start-step :
        (l : ℕ) → More K V high limit l → Again K V high limit l → Start K V high limit l
    unfolding run
    Start-step l more ag zero low hf left m g k v x few = absurd (omega arith)
    Start-step l more ag (suc fuel) low hf left m g k v x few =
        simp x.represents.table.allocated
          (elim (look m g k fuel v x.represents (find-Found m k x.represents.table)) [
            | present w e go ↦ (
              (m, find m k, false),
              go,
              record {
                good = rw (insert_new-some g k v w e) x;
                grown = omega arith;
                points =
                    find-entry_at m g k x.represents
                    ∙ ap (λ h. with_key k (h k)) (sym (insert_new-some g k v w e));
                flag = rw e;
              },
            )
            | missing e go ↦ rw go (missed l more ag fuel low (omega arith) m g k v x left few e)
          ])

    -- Both, at every level.
    pub levels : (l : ℕ) → More K V high limit l × Again K V high limit l
    levels zero = (More-zero high limit s, again_lem high limit s 0 (More-zero high limit s))
    levels (suc l) =
        let (more, ag) = levels l in
        let more' = More-suc high limit s l (Start-step l more ag) ag in
        (more', again_lem high limit s (suc l) more')
