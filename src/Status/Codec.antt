-- ===== src/Status/Codec.antt =====
-- The operations on single endpoints, on the status string of a state of every endpoint.
use mathlib.Core.Path.{fun_ext}
use cmnw.Prelude.{
  Bool, true, false, map, ◌≡◌, sym, ap, ◌∙◌, inl, inr, arith, if◌then◌else◌, Bool-cases, ◌==◌,
}
use cmnw.Status.{
  State, success, error, pending, Codes, Table, char_for, dash, set_status, get_char, is_success,
  is_error, is_pending,
}
use cmnw.Status.Encoding.{
  IsLawful, DistinctCodes, encode, update, splice-map, get-map, get_or-eq_some,
}

abbrev pub is_state : State → State → Bool
is_state success success = true
is_state error error = true
is_state pending pending = true
is_state success _ = false
is_state error _ = false
is_state pending _ = false

pub is_state-eq : (a b : State) → is_state a b ≡ true → a ≡ b
is_state-eq success b h = ground arith
is_state-eq error b h = ground arith
is_state-eq pending b h = ground arith

-- The characters of an endpoint tell its states apart.
char_for-is_state :
    (c : Codes)
    → DistinctCodes c
    → (st other : State) → (char_for st c == char_for other c) ≡ is_state st other
char_for-is_state c d success success = ground arith
char_for-is_state c d success error = ground arith
char_for-is_state c d success pending = ground arith
char_for-is_state c d error success = ground arith
char_for-is_state c d error error = ground arith
char_for-is_state c d error pending = ground arith
char_for-is_state c d pending success = ground arith
char_for-is_state c d pending error = ground arith
char_for-is_state c d pending pending = ground arith

module _ {K : Type 0} (t : Table K) (l : IsLawful t) where
  update-codes :
      (f : K → State) (k : K) (st : State) (j : K)
      → (if t.same j k then char_for st (t.codes_of k) else char_for (f j) (t.codes_of j))
        ≡ char_for (update t f k st j) (t.codes_of j)
  unfolding update
  update-codes f k st j = elim (Bool-cases (t.same j k)) [
    | inl h ↦ rw h (ap (λ i. char_for st (t.codes_of i)) (sym ((l.same_iff j k).0 h)))
    | inr h ↦ rw h
  ]

  -- Writing a state into the status string of a state of every endpoint gives the status string in
  -- which that endpoint has the new state and every other endpoint the state it had.
  pub set_status-encode :
      (f : K → State) (k : K) (st : State)
      → set_status t (encode t f) k st ≡ encode t (update t f k st)
  unfolding set_status encode
  set_status-encode f k st =
      let (i, e) = l.listed k in
      rw (e, set_status)
        (splice-map t.same (λ j. char_for (f j) (t.codes_of j)) (char_for st (t.codes_of k))
            l.same_iff k t.order i l.distinct e
          ∙ ap (λ g. map g t.order) (fun_ext (update-codes f k st)))

  -- The character read at an endpoint is the code of its state.
  pub get_char-encode :
      (f : K → State) (k : K) → get_char t (encode t f) k ≡ char_for (f k) (t.codes_of k)
  unfolding get_char encode
  get_char-encode f k =
      let (i, e) = l.listed k in
      let g = λ (j : K). char_for (f j) (t.codes_of j) in
      let (same, below) =
        get_or-eq_some (map g t.order) i dash (g k) (get-map t.same g l.same_iff k t.order i e) in
      rw (e, get_char) (ground arith)

  pub is_success-encode :
      (f : K → State) (k : K) → is_success t (encode t f) k ≡ is_state (f k) success
  unfolding is_success
  is_success-encode f k = rw (get_char-encode f k) (char_for-is_state _ (l.coded k) (f k) success)

  pub is_error-encode : (f : K → State) (k : K) → is_error t (encode t f) k ≡ is_state (f k) error
  unfolding is_error
  is_error-encode f k = rw (get_char-encode f k) (char_for-is_state _ (l.coded k) (f k) error)

  pub is_pending-encode :
      (f : K → State) (k : K) → is_pending t (encode t f) k ≡ is_state (f k) pending
  unfolding is_pending
  is_pending-encode f k = rw (get_char-encode f k) (char_for-is_state _ (l.coded k) (f k) pending)
