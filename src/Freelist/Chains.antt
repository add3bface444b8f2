-- ===== src/Freelist/Chains.antt =====
-- Chains of elements (include/freelist.h), and what writing a link does to them.
use turbokit.Base.{
  ℕ, zero, suc, ◌+◌, ◌≡◌, ◌<◌, ◌≤◌, refl, some, true, false, List, [], ◌∷◌, length, take, drop,
  occurrences, ◌==◌, update, arith,
}
use turbokit.Freelist.{walk}

-- The pointer leads to these elements, one after another, and then to null.
abbrev pub Chain : (ℕ → ℕ) → ℕ → List ℕ → Type 0
Chain next p [] = p ≡ 0
Chain next p (x ∷ xs) = (p ≡ x) × (0 < x) × Chain next (next x) xs

-- A link of an element that the chain does not have.
pub update-Chain :
    (next : ℕ → ℕ) (e v p : ℕ) (xs : List ℕ)
    → occurrences e xs ≡ 0
    → Chain next p xs
    → Chain (update next e v) p xs
update-Chain next e v p [] h c = c
update-Chain next e v p (x ∷ xs) h (px, pos, c) =
    let other : (x == e) ≡ false = ground arith in
    (px, pos, rw other (update-Chain next e v (next x) xs (omega arith) c))

pub occurrences-take-drop :
    (e n : ℕ) (xs : List ℕ)
    → occurrences e (take n xs) + occurrences e (drop n xs) ≡ occurrences e xs
occurrences-take-drop e zero xs = omega arith
occurrences-take-drop e (suc n) [] = refl
occurrences-take-drop e (suc n) (x ∷ xs) = omega (arith, occurrences-take-drop e n xs)

-- The loop stops at the element after `k` others, where writing null cuts the chain in two.
pub record Cut (next : ℕ → ℕ) (p k : ℕ) (xs : List ℕ) : Type 0 where
  pub current : ℕ
  pub walked : walk k next p ≡ some current
  pub valid : 0 < current
  pub rest : Chain next (next current) (drop (suc k) xs)
  pub there : occurrences current (take (suc k) xs) ≡ 1
  pub retained : Chain (update next current 0) p (take (suc k) xs)

pub Chain-Cut :
    (next : ℕ → ℕ) (p k : ℕ) (xs : List ℕ)
    → Chain next p xs
    → k < length xs
    → ((e : ℕ) → occurrences e xs ≤ 1)
    → Cut next p k xs
unfolding walk
Chain-Cut next p k [] c h once = absurd (omega arith)
Chain-Cut next p zero (x ∷ xs) (px, pos, c) h once = record {
  current = p;
  walked = refl;
  valid = omega arith;
  rest = rw px c;
  there = let same : (x == p) ≡ true = ground arith in rw same refl;
  retained = (px, pos, (let same : (x == p) ≡ true = ground arith in rw same refl));
}
Chain-Cut next p (suc k) (x ∷ xs) (px, pos, c) h once =
    let tail = Chain-Cut next (next x) k xs c (omega arith) (λ e. omega (arith, once e)) in
    let other : (x == tail.current) ≡ false =
      ground
        (arith, once tail.current, tail.there, occurrences-take-drop tail.current (suc k) xs) in
    record {
      current = tail.current;
      walked = rw px ((let live : (x == 0) ≡ false = ground arith in rw live tail.walked));
      valid = tail.valid;
      rest = tail.rest;
      there = rw other (omega (arith, tail.there));
      retained = (px, pos, rw other tail.retained);
    }
