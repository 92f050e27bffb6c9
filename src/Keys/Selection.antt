-- ===== src/Keys/Selection.antt =====
-- Which key `getAvailableKey` returns.
use cmnw.Prelude.{
  ℕ, ◌≤◌, Bool, true, Option, none, some, List, [], ◌∷◌, ◌≡◌, arith, keep, All, Memᴰ, Text,
  head?-sort_by-some, head?-sort_by-none, keep-Memᴰ, keep-nil, Bool-cases, inl, inr,
}
use cmnw.Keys.{Key, is_available, is_tagged, get_available_key}

-- The key has no cooldown left and answers to the tag.
abbrev pub Qualifies : ℕ → Option Text → Key → Type 0
Qualifies now tag k = (is_available now k ≡ true) × (is_tagged tag k ≡ true)

module _ {A : Type 0} (p q : A → Bool) where
  keep_twice_none :
      (xs : List A) → keep q (keep p xs) ≡ [] → All (λ x. ¬ ((p x ≡ true) × (q x ≡ true))) xs
  keep_twice_none [] e = tt
  keep_twice_none (x ∷ xs) e = elim (Bool-cases (p x)) [
    | inl kept ↦
        let e' : keep q (x ∷ keep p xs) ≡ [] = rw kept at e in
        let (here, later) = keep-nil q (x ∷ keep p xs) e' in
        (λ (_, h). ground arith, keep_twice_none xs (rw here at e'))
    | inr dropped ↦ (λ (h, _). ground arith, keep_twice_none xs (rw dropped at e))
  ]

  keep_twice_All :
      (P : A → Type 0) (xs : List A)
      → All P (keep q (keep p xs))
      → All (λ x. (p x ≡ true) × (q x ≡ true) → P x) xs
  keep_twice_All P [] h = tt
  keep_twice_All P (x ∷ xs) h = elim (Bool-cases (p x)) [
    | inl kept ↦
        let h' : All P (keep q (x ∷ keep p xs)) = rw kept at h in
        elim (Bool-cases (q x)) [
          | inl kept' ↦
              let h'' : All P (x ∷ keep q (keep p xs)) = rw kept' at h' in
              (λ _. h''.0, keep_twice_All P xs h''.1)
          | inr dropped ↦ (λ (_, e). cc, keep_twice_All P xs (rw dropped at h'))
        ]
    | inr dropped ↦ (λ (e, _). cc, keep_twice_All P xs (rw dropped at h))
  ]

-- A key that is returned is one of the pool, qualifies, and has the smallest cooldown of all keys
-- of the pool that qualify.
pub get_available_key-some :
    (now : ℕ) (tag : Option Text) (keys : List Key) (k : Key)
    → get_available_key now tag keys ≡ some k
    → Memᴰ k keys
      × Qualifies now tag k
      × All (λ j. Qualifies now tag j → k.cooldown_delay_seconds ≤ j.cooldown_delay_seconds) keys
unfolding get_available_key
get_available_key-some now tag keys k e =
    let (inside, least) =
      head?-sort_by-some _ (keep (is_tagged tag) (keep (is_available now) keys)) k e in
    let (inside', tagged) = keep-Memᴰ (is_tagged tag) k (keep (is_available now) keys) inside in
    let (member, free) = keep-Memᴰ (is_available now) k keys inside' in
    (member, (free, tagged), keep_twice_All (is_available now) (is_tagged tag) _ keys least)

-- No key is returned only if no key of the pool qualifies.
pub get_available_key-none :
    (now : ℕ) (tag : Option Text) (keys : List Key)
    → get_available_key now tag keys ≡ none
    → All (λ k. ¬ Qualifies now tag k) keys
unfolding get_available_key
get_available_key-none now tag keys e =
    keep_twice_none (is_available now) (is_tagged tag) keys
      (head?-sort_by-none _ (keep (is_tagged tag) (keep (is_available now) keys)) e)
