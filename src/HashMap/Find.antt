-- ===== src/HashMap/Find.antt =====
-- `find` and `find_in_collision_chain` of include/hash_map.h.
use turbokit.Base.{
  ℕ, zero, suc, ◌+◌, ◌-◌, Bool, false, ◌&&◌, Option, none, some, ◌==◌, ltb, if◌then◌else◌,
}
use turbokit.HashMap.Types.{
  Traits, HashMap, CollisionEntry, null, in_main, in_collision, Iterator, iterator, end, masked,
}

-- The variables of the loop: `current_ptr` as an index, `collision_idx` and `chain_len`.
pub record Cursor : Type 0 where
  pub current : ℕ
  pub collision_idx : ℕ
  pub chain_len : ℕ

abbrev pub cursor : (current collision_idx chain_len : ℕ) → Cursor
cursor p i l = record { current = p; collision_idx = i; chain_len = l }

-- `++current_ptr; ++collision_idx; --chain_len;`
abbrev pub advance : Cursor → Cursor
advance s = cursor (s.current + 1) (s.collision_idx + 1) (s.chain_len - 1)

-- `if (current_ptr == wrap_ptr) current_ptr = collision_table;`
abbrev pub rewind : ℕ → Cursor → Cursor
rewind limit s = if s.current == limit then cursor 0 s.collision_idx s.chain_len else s

module _ {K V : Type 0} ⦃t : Traits K⦄ where
  -- The lambda `equal`: an entry with the invalid marker belongs to no bucket.
  unfoldable pub equal : Option (CollisionEntry K V) → ℕ → K → Bool
  equal none bucket_idx key = false
  equal (some e) bucket_idx key = (e.main_index == bucket_idx) && t.equal e.key key

  module _ (m : HashMap K V) (bucket_idx : ℕ) (key : K) (end_ptr : ℕ) where
    -- Where an iteration of the loop goes on.
    abbrev pub Next : Type 0
    Next = Cursor → Iterator

    -- `return end_iterator`
    abbrev pub end_iterator : Iterator
    end_iterator = iterator (some bucket_idx) (some end_ptr) null

    -- One comparison: return the entry, or step on.
    unfoldable pub check : Next → Next
    check next s =
        if equal (m.collision_table s.current) bucket_idx key
        then iterator (some bucket_idx) (some (masked m.bucket_count s.collision_idx))
            (in_collision s.current)
        else next (advance s)

    -- The cases of the switch, each falling through to the one below.
    unfoldable pub case1 : Next → Next
    case1 next = check λ s. if s.current == end_ptr then end_iterator else next s

    unfoldable pub case2 : Next → Next
    case2 next = check (case1 next)

    unfoldable pub case3 : Next → Next
    case3 next = check (case2 next)

    unfoldable pub case4 : Next → Next
    case4 next = check (case3 next)

    unfoldable pub switch : Next → Next
    switch next s =
        if s.chain_len == 1
        then case1 next s
        else if s.chain_len == 2
        then case2 next s
        else if s.chain_len == 3
        then case3 next s
        else case4 next s

    unfoldable pub body : Next → Next
    unfolding switch case4 case3 case2 case1 check
    body next s =
        let tail = check (λ s'. next (rewind m.bucket_count s')) in
        if ltb s.current end_ptr then switch tail s else tail s

    -- `do … while (current_ptr != end_ptr)`; the fuel is the bucket count.
    unfoldable pub loop : ℕ → Next
    unfolding body
    loop zero s = end_iterator
    loop (suc fuel) s = body (λ s'. if s'.current == end_ptr then end_iterator else loop fuel s') s

  unfoldable pub find_in_collision_chain :
      HashMap K V → (bucket_idx chain_length : ℕ) → K → Iterator
  find_in_collision_chain m bucket_idx chain_length key =
      loop m bucket_idx key (masked m.bucket_count (bucket_idx + chain_length)) m.bucket_count
        (cursor bucket_idx bucket_idx chain_length)

  unfoldable pub find : HashMap K V → K → Iterator
  find m key =
      let bucket_idx = masked m.bucket_count (t.hash key) in
      if m.allocated
      then elim (m.main_table bucket_idx) [
        | none ↦ iterator (some bucket_idx) none null
        | some e ↦
            if t.equal e.key key
            then iterator (some bucket_idx) none (in_main bucket_idx)
            else if e.chain_length == 0
            then iterator (some bucket_idx) (some bucket_idx) null
            else find_in_collision_chain m bucket_idx e.chain_length key
      ]
      else end
