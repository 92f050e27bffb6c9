-- ===== src/Status/Validity.antt =====
-- Writing a state keeps a valid status string valid.
use cmnw.Prelude.{
  ℕ, zero, suc, ◌<◌, Bool, true, List, [], ◌∷◌, ◌++◌, map, ◌≡◌, refl, arith, length, take, drop,
  all, ==_refl, Text, inl, inr, Bool-cases, some, length-map,
}
use mathlib.Core.Option
use cmnw.Status.{State, Table, char_for, index_of, set_status, is_valid}
use cmnw.Status.Encoding.{IsLawful, accepts, encode}

all-splice :
    (p : ℕ → Bool) (c : ℕ) (s : Text) (i : ℕ)
    → all p s ≡ true
    → p c ≡ true
    → all p (take i s ++ c ∷ drop (suc i) s) ≡ true
all-splice p c [] zero h k = ground arith
all-splice p c [] (suc i) h k = ground arith
all-splice p c (x ∷ s) zero h k = ground arith
all-splice p c (x ∷ s) (suc i) h k = ground (arith, all-splice p c s i)

length-splice :
    (c : ℕ) (s : Text) (i : ℕ) → i < length s → length (take i s ++ c ∷ drop (suc i) s) ≡ length s
length-splice c [] i h = elim h [ ]
length-splice c (x ∷ s) zero h = refl
length-splice c (x ∷ s) (suc i) h = omega (arith, length-splice c s i (omega arith))

index_of-lt :
    {K : Type 0} (same : K → K → Bool) (k : K) (ks : List K) (i : ℕ)
    → index_of same k ks ≡ some i
    → i < length ks
unfolding index_of
index_of-lt same k [] i e = cc
index_of-lt same k (j ∷ js) i e = elim (Bool-cases (same j k)) [
  | inl h ↦ let first : some 0 ≡ some i = rw h at e in ground arith
  | inr h ↦
      let later : Option.map suc (index_of same k js) ≡ some i = rw h at e in
      let (n, found, next) = (Option.map-eq-some_iff suc (index_of same k js)).0 later in
      omega (arith, index_of-lt same k js n found, next)
]

all_codes :
    {K : Type 0} (p : ℕ → Bool) (g : K → ℕ)
    → ((k : K) → p (g k) ≡ true)
    → (ks : List K) → all p (map g ks) ≡ true
all_codes p g h [] = refl
all_codes p g h (k ∷ ks) = rw (h k) (all_codes p g h ks)

module _ {K : Type 0} (t : Table K) (l : IsLawful t) where
  -- Whatever valid text it is given, the write returns a valid text.
  pub set_status-IsValid :
      (s : Text) (k : K) (st : State)
      → is_valid t s ≡ true
      → is_valid t (set_status t s k st) ≡ true
  unfolding is_valid set_status
  set_status-IsValid s k st v =
      let (i, e) = l.listed k in
      let c = char_for st (t.codes_of k) in
      let below = index_of-lt t.same k t.order i e in
      rw (e, set_status)
        (ground (
          arith,
          all-splice (accepts t.valid_chars) c s i,
          l.accepted k st,
          length-splice c s i,
          below,
        ))

  pub encode-IsValid : (f : K → State) → is_valid t (encode t f) ≡ true
  unfolding is_valid encode
  encode-IsValid f =
      let g = λ (k : K). char_for (f k) (t.codes_of k) in
      rw (length-map g t.order, ==_refl (length t.order))
        (all_codes (accepts t.valid_chars) g (λ k. l.accepted k (f k)) t.order)
