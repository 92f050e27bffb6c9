-- ===== src/Prelude/Missing.antt =====
-- Tables in which a row is put only if none that is the same is there: `existsBy`, and then `save`,
-- each of which may throw.
use mathlib.Core.Path.{◌≡◌, refl, sym, ◌∙◌, subst}
use mathlib.Core.Logic.{◌⊎◌, inl, inr}
use mathlib.Core.Bool.{Bool, true, false}
use mathlib.Core.Option.{Option, none, some}
use mathlib.Core.List.{List, [], ◌∷◌, ◌++◌, append_assoc, append-nil, Memᴰ}
use native.Mathlib.Omega.{arith}
use cmnw.Prelude.Tests.{if◌then◌else◌, Bool-cases}
use cmnw.Prelude.Lists.{any, any-append}

module _ {A : Type 0} (same : A → A → Bool) where
  -- No two rows are the same.
  abbrev pub AreDifferent : List A → Type 0
  AreDifferent [] = Unit
  AreDifferent (r ∷ rs) = (any (same r) rs ≡ false) × AreDifferent rs

  module _ (refuses : A → Bool) where
    unfoldable pub put_missing : A → List A → Option (List A)
    put_missing r rows =
        if any (same r) rows then some rows else (if refuses r then none else some (rows ++ r ∷ []))

    -- The rows in turn, up to the first that is refused; and whether none was.
    unfoldable pub put_all_missing : List A → List A → List A × Bool
    put_all_missing [] rows = (rows, true)
    put_all_missing (r ∷ rs) rows = elim (put_missing r rows) [
      | none ↦ (rows, false)
      | some rows' ↦ put_all_missing rs rows'
    ]

    -- What is there stays, in its place; and what is new is one of the rows that are put.
    pub put_all_missing-append :
        (rs rows : List A)
        → (new : List A) × ((put_all_missing rs rows).0 ≡ rows ++ new)
          × ((x : A) → Memᴰ x new → Memᴰ x rs)
    unfolding put_all_missing put_missing
    put_all_missing-append [] rows = ([], sym (append-nil rows), (λ x m. m))
    put_all_missing-append (r ∷ rs) rows = elim (Bool-cases (any (same r) rows)) [
      | inl old ↦
          let (more, e, origin) = put_all_missing-append rs rows in
          rw (put_all_missing, old) (more, e, (λ x m. Memᴰ.tail (origin x m)))
      | inr new ↦ elim (Bool-cases (refuses r)) [
        | inl refused ↦
            rw (put_all_missing, new, refused) ([], sym (append-nil rows), (λ x m. elim m [ ]))
        | inr put ↦
            let (more, e, origin) = put_all_missing-append rs (rows ++ r ∷ []) in
            rw (put_all_missing, new, put)
              (
                r ∷ more,
                e ∙ append_assoc rows (r ∷ []) more,
                (λ x m. elim m [
                  | Memᴰ.head h ↦ Memᴰ.head h
                  | Memᴰ.tail k ↦ Memᴰ.tail (origin x k)
                ]),
              )
      ]
    ]

    put_all_missing-any :
        (p : A → Bool) (rs rows : List A)
        → any p rows ≡ true
        → any p (put_all_missing rs rows).0 ≡ true
    put_all_missing-any p rs rows h =
        let (new, e, origin) = put_all_missing-append rs rows in
        rw e (ground (arith, any-append p rows new))

    -- What holds of the other rows holds of all, if the first is there.
    with_first :
        (r : A) (rs rows : List A)
        → any (same r) rows ≡ true
        → (((put_all_missing rs rows).1 ≡ true)
            × ((x : A) → Memᴰ x rs → any (same x) (put_all_missing rs rows).0 ≡ true))
          ⊎ (((put_all_missing rs rows).1 ≡ false) × (x : A) × Memᴰ x rs × (refuses x ≡ true))
        → (((put_all_missing rs rows).1 ≡ true)
            × ((x : A) → Memᴰ x (r ∷ rs) → any (same x) (put_all_missing rs rows).0 ≡ true))
          ⊎ (((put_all_missing rs rows).1 ≡ false) × (x : A) × Memᴰ x (r ∷ rs) × (refuses x ≡ true))
    with_first r rs rows here (inl (done, all)) = inl (
      done,
      (λ x m. elim m [
        | Memᴰ.head e ↦
            subst (λ y. any (same y) (put_all_missing rs rows).0 ≡ true) (sym e)
              (put_all_missing-any (same r) rs rows here)
        | Memᴰ.tail k ↦ all x k
      ]),
    )
    with_first r rs rows here (inr (stopped, x, m, refused)) =
        inr (stopped, x, Memᴰ.tail m, refused)

    -- Every row is there in the end, or one of them is refused.
    pub put_all_missing-All :
        ((a : A) → same a a ≡ true)
        → (rs rows : List A)
        → (((put_all_missing rs rows).1 ≡ true)
            × ((x : A) → Memᴰ x rs → any (same x) (put_all_missing rs rows).0 ≡ true))
          ⊎ (((put_all_missing rs rows).1 ≡ false) × (x : A) × Memᴰ x rs × (refuses x ≡ true))
    unfolding put_all_missing put_missing
    put_all_missing-All same_refl [] rows = inl (refl, (λ x m. elim m [ ]))
    put_all_missing-All same_refl (r ∷ rs) rows = elim (Bool-cases (any (same r) rows)) [
      | inl old ↦
          rw (put_all_missing, old)
            (with_first r rs rows old (put_all_missing-All same_refl rs rows))
      | inr new ↦ elim (Bool-cases (refuses r)) [
        | inl refused ↦ rw (put_all_missing, new, refused) (inr (refl, r, Memᴰ.head refl, refused))
        | inr put ↦
            rw (put_all_missing, new, put)
              (with_first r rs (rows ++ r ∷ [])
                (ground (arith, any-append (same r) rows (r ∷ []), same_refl r))
                (put_all_missing-All same_refl rs (rows ++ r ∷ [])))
      ]
    ]

  module _ (same_sym : (a b : A) → same a b ≡ same b a) where
    AreDifferent-append :
        (r : A) (rows : List A)
        → AreDifferent rows
        → any (same r) rows ≡ false
        → AreDifferent (rows ++ r ∷ [])
    AreDifferent-append r [] d h = (refl, tt)
    AreDifferent-append r (x ∷ xs) d h = (
      ground (arith, any-append (same x) xs (r ∷ []), same_sym r x),
      AreDifferent-append r xs d.1 (ground arith),
    )

    pub put_all_missing-AreDifferent :
        (refuses : A → Bool) (rs rows : List A)
        → AreDifferent rows
        → AreDifferent (put_all_missing refuses rs rows).0
    unfolding put_all_missing put_missing
    put_all_missing-AreDifferent refuses [] rows d = d
    put_all_missing-AreDifferent refuses (r ∷ rs) rows d = elim (Bool-cases (any (same r) rows)) [
      | inl old ↦ rw (put_all_missing, old) (put_all_missing-AreDifferent refuses rs rows d)
      | inr new ↦ elim (Bool-cases (refuses r)) [
        | inl refused ↦ rw (put_all_missing, new, refused) d
        | inr put ↦
            rw (put_all_missing, new, put)
              (put_all_missing-AreDifferent refuses rs (rows ++ r ∷ [])
                (AreDifferent-append r rows d new))
      ]
    ]
