-- ===== src/Pricing/Bucket.antt =====
-- The bucket of a price.
use cmnw.Prelude.{
  ℕ, zero, suc, ◌+◌, ◌-◌, ◌/◌, ◌≤◌, ◌<◌, some, List, [], ◌∷◌, ◌≡◌, ◌⊎◌, refl, arith, ltb, leb,
  if◌then◌else◌, length, get_or, Bool-cases, inl, inr, ap, sym, ◌∙◌,
}
use cmnw.Pricing.{last_of, search, assign_price_bucket}

-- Each edge is above the one before.
abbrev pub IsAscending : ℕ → List ℕ → Type 0
IsAscending l [] = Unit
IsAscending l (x ∷ xs) = (l < x) × IsAscending x xs

-- How many edges the price has reached.
unfoldable pub reached : ℕ → List ℕ → ℕ
reached price [] = 0
reached price (e ∷ es) = let rest = reached price es in if leb e price then suc rest else rest

reached-below : (price e : ℕ) (es : List ℕ) → IsAscending e es → price ≤ e → reached price es ≡ 0
unfolding reached
reached-below price e [] a h = refl
reached-below price e (x ∷ xs) a h = ground (arith, reached-below price x xs a.1)

reached-above :
    (price e : ℕ) (es : List ℕ)
    → IsAscending e es
    → last_of e es ≤ price
    → (e ≤ price) × (reached price es ≡ length es)
unfolding reached
reached-above price e [] a h = (h, refl)
reached-above price e (x ∷ xs) a h = ground (arith, reached-above price x xs a.1 h)

reached-first :
    (price e : ℕ) (es : List ℕ) → e ≤ price → reached price (e ∷ es) ≡ suc (reached price es)
unfolding reached
reached-first price e es h = ground arith

reached-missed : (price e : ℕ) (es : List ℕ) → price < e → reached price (e ∷ es) ≡ reached price es
unfolding reached
reached-missed price e es h = ground arith

-- A bracket of two neighbouring edges tells the number.
reached-bracket :
    (price e : ℕ) (es : List ℕ) (i : ℕ)
    → IsAscending e es
    → i < length es
    → get_or (e ∷ es) i 0 ≤ price
    → price < get_or es i 0
    → reached price (e ∷ es) ≡ suc i
unfolding reached
reached-bracket price e (x ∷ xs) zero a h low high = ground (arith, reached-below price x xs a.1)
reached-bracket price e (x ∷ xs) (suc i) a h low high =
    let ih = reached-bracket price x xs i a.1 (ground arith) low high in
    elim (Bool-cases (leb x price)) [
      | inl met ↦ reached-first price e (x ∷ xs) (ground arith) ∙ ap suc ih
      | inr missed ↦ ground (
        arith,
        ih,
        reached-missed price x xs (ground arith),
        reached-below price x xs a.1 (ground arith),
      )
    ]
reached-bracket price e [] i a h low high = ground arith

ReachedAt : ℕ → List ℕ → ℕ → Type 0
ReachedAt price edges i = (i ≡ 0) ⊎ (get_or edges (i - 1) 0 ≤ price)

pred-suc : (n : ℕ) → suc n - 1 ≡ n
pred-suc n = ground arith

-- The search keeps a lower edge that is reached and an upper one that is not.
search-bracket :
    (top f price : ℕ) (edges : List ℕ) (lo hi : ℕ)
    → lo ≤ hi
    → hi ≤ top
    → hi < lo + f
    → ReachedAt price edges lo
    → price < get_or edges hi 0
    → (i : ℕ) × (search f price edges lo hi ≡ some (i - 1))
      × (i ≤ top)
      × ReachedAt price edges i
      × (price < get_or edges i 0)
unfolding search ReachedAt
search-bracket top zero price edges lo hi below within fuel low high = ground arith
search-bracket top (suc f) price edges lo hi below within fuel low high =
    elim (Bool-cases (ltb lo hi)) [
      | inl apart ↦ elim (Bool-cases (ltb price (get_or edges ((lo + hi) / 2) 0))) [
        | inl under ↦
            rw (search, apart, under)
              (search-bracket top f price edges lo ((lo + hi) / 2) (ground arith) (ground arith)
                (ground arith) low (ground arith))
        | inr over ↦
            rw (search, apart, over)
              (search-bracket top f price edges (suc ((lo + hi) / 2)) hi (ground arith) within
                (ground arith) (inr (rw (pred-suc ((lo + hi) / 2)) (ground arith))) high)
      ]
      | inr closed ↦
          rw (search, closed)
            (lo, refl, ground arith, low, let e : lo ≡ hi = ground arith in rw e high)
    ]

get_or-last : (e : ℕ) (es : List ℕ) → get_or (e ∷ es) (length es) 0 ≡ last_of e es
get_or-last e [] = refl
get_or-last e (x ∷ xs) = get_or-last x xs

-- What the search ends with, read as a number of edges.
reached-found :
    (price e : ℕ) (es : List ℕ) (i : ℕ)
    → IsAscending e es
    → e < price
    → i ≤ length es
    → ReachedAt price (e ∷ es) i
    → price < get_or (e ∷ es) i 0
    → reached price (e ∷ es) ≡ i
unfolding ReachedAt
reached-found price e es zero a above within low high = ground arith
reached-found price e es (suc i) a above within low high =
    reached-bracket price e es i a (ground arith)
      (elim low [ inl h ↦ ground arith | inr h ↦ rw⁻¹ (pred-suc i) h ]) high

reached-low :
    (price e : ℕ) (es : List ℕ) → IsAscending e es → price ≤ e → reached price (e ∷ es) - 1 ≡ 0
unfolding reached
reached-low price e es a h = ground (arith, reached-below price e es a h)

reached-high :
    (price e : ℕ) (es : List ℕ)
    → IsAscending e es
    → last_of e es ≤ price
    → reached price (e ∷ es) - 1 ≡ length es
unfolding reached
reached-high price e es a h = ground (arith, reached-above price e es a h)

-- On ascending edges the binary search ends within its fuel, with the index that counting gives:
-- one less than the number of edges that the price has reached, and the first bucket for a price
-- that has reached none.
pub assign_price_bucket-reached :
    (price e : ℕ) (es : List ℕ)
    → IsAscending e es
    → assign_price_bucket price (e ∷ es) ≡ some (reached price (e ∷ es) - 1)
unfolding assign_price_bucket ReachedAt
assign_price_bucket-reached price e es a = elim (Bool-cases (leb price e)) [
  | inl low ↦ rw low (ap some (sym (reached-low price e es a (ground arith))))
  | inr above ↦ elim (Bool-cases (leb (last_of e es) price)) [
    | inl high ↦ rw (above, high) (ap some (sym (reached-high price e es a (ground arith))))
    | inr inside ↦
        rw (above, inside)
          (let found =
              search-bracket (length es) (suc (length es)) price (e ∷ es) 0 (length es)
                (ground arith) (ground arith) (ground arith) (inl refl)
                (rw (get_or-last e es) (ground arith)) in
            found.1
            ∙ ap (λ n. some (n - 1))
                (sym (reached-found price e es found.0 a (ground arith) found.2 found.3 found.4)))
  ]
]
