-- ===== src/Roster/Visits.antt =====
-- What a phase of visits, to all who stay, join or leave, does to the row of one character.
use cmnw.Prelude.{
  ℕ, Bool, true, false, Option, none, some, List, [], ◌∷◌, ◌≡◌, ◌≢◌, refl, sym, ◌∙◌, ap, arith,
  ◌==◌, any, map_get, ==_iff, All, Bool-cases, Option-cases, inl, inr, ==_refl,
}
use cmnw.Roster.{
  Guild, Member, MemberRow, Command, joined_row, flat_map, process_intersection_member,
  process_join_member, process_leave_member, rank_change, join_commands, leave_commands,
}
use cmnw.Roster.Table.{effects, effects-append, kept_row, IsConsistent}
use cmnw.Roster.Steps.{
  never, rank_change-none, rank_change-other, join_commands-other, join_commands_self,
  leave_commands-none, leave_commands-other,
}

pub ne_of_== : (i j : ℕ) → (i == j) ≡ false → i ≢ j
ne_of_== i j h = ground arith

pub kept_row-guids :
    (o : MemberRow) (u : Member)
    → ((kept_row o u).character_guid ≡ o.character_guid)
      × ((kept_row o u).guild_guid ≡ o.guild_guid)
unfolding kept_row
kept_row-guids o u = ground arith

-- Everything in a list is in it.
All-any_from :
    (p : ℕ → Bool) (xs : List ℕ)
    → ((j : ℕ) → any (λ k. k == j) xs ≡ true → p j ≡ true)
    → All (λ j. p j ≡ true) xs
All-any_from p [] h = tt
All-any_from p (x ∷ xs) h =
    (h x (rw (==_refl x) refl), All-any_from p xs (λ j e. h j (ground arith)))

pub All-any : (xs : List ℕ) → All (λ j. any (λ k. k == j) xs ≡ true) xs
All-any xs = All-any_from (λ j. any (λ k. k == j) xs) xs (λ j e. e)

pub All-ne_of_absent : (i : ℕ) (is : List ℕ) → any (λ j. j == i) is ≡ false → All (λ j. j ≢ i) is
All-ne_of_absent i [] h = tt
All-ne_of_absent i (j ∷ is) h = (ground arith, All-ne_of_absent i is (ground arith))

pub All-map {κ μ} :
    {P : ℕ → Type κ} {Q : ℕ → Type μ} → ((j : ℕ) → P j → Q j) → (is : List ℕ) → All P is → All Q is
All-map f [] h = tt
All-map f (i ∷ is) h = (f i h.0, All-map f is h.1)

pub everywhere {κ} : {P : ℕ → Type κ} → ((j : ℕ) → P j) → (is : List ℕ) → All P is
everywhere h [] = tt
everywhere h (i ∷ is) = (h i, everywhere h is)

-- The visits of a phase leave a row alone if each of them does.
pub flat_map-fixed :
    (f : ℕ → List Command) (i : ℕ) (s : Option MemberRow) (is : List ℕ)
    → All (λ j. effects (f j) i s ≡ s) is
    → effects (flat_map f is) i s ≡ s
unfolding flat_map effects
flat_map-fixed f i s [] h = refl
flat_map-fixed f i s (j ∷ is) h =
    effects-append (f j) (flat_map f is) i s
    ∙ ap (effects (flat_map f is) i) h.0
    ∙ flat_map-fixed f i s is h.1

-- The visits of a phase that includes `i` bring the row of `i` to what its own visit makes of it.
pub flat_map-reaches :
    (f : ℕ → List Command) (i : ℕ) (s t : Option MemberRow) (is : List ℕ)
    → All (λ j. j ≢ i → effects (f j) i s ≡ s) is
    → effects (f i) i s ≡ t
    → All (λ j. effects (f j) i t ≡ t) is
    → any (λ j. j == i) is ≡ true
    → effects (flat_map f is) i s ≡ t
unfolding flat_map effects
flat_map-reaches f i s t [] others self done inside = cc
flat_map-reaches f i s t (j ∷ is) others self done inside = elim (Bool-cases (j == i)) [
  | inl same ↦
      effects-append (f j) (flat_map f is) i s
      ∙ ap (effects (flat_map f is) i) (ap (λ n. effects (f n) i s) ((==_iff j i).0 same) ∙ self)
      ∙ flat_map-fixed f i t is done.1
  | inr other ↦
      effects-append (f j) (flat_map f is) i s
      ∙ ap (effects (flat_map f is) i) (others.0 (ne_of_== j i other))
      ∙ flat_map-reaches f i s t is others.1 self done.1 (rw other at inside)
]

module _ (guild : Guild) (at : ℕ) (originals : List (ℕ × MemberRow)) (updateds : List (ℕ × Member))
    (k : IsConsistent guild originals updateds) where
  abbrev pub keeping : ℕ → List Command
  keeping = process_intersection_member never guild at originals updateds

  abbrev pub leaving : ℕ → List Command
  leaving = process_leave_member never guild at originals

  abbrev pub joining : Bool → ℕ → List Command
  joining first = process_join_member never guild at first updateds

  keeping-missing : (j : ℕ) → map_get j originals ≡ none → keeping j ≡ []
  unfolding process_intersection_member
  keeping-missing j h = rw (h, process_intersection_member) refl

  pub keeping-gone : (j : ℕ) → map_get j updateds ≡ none → keeping j ≡ []
  unfolding process_intersection_member
  keeping-gone j h = elim (Option-cases (map_get j originals)) [
    | inl h' ↦ rw (h', process_intersection_member) refl
    | inr (p, h') ↦ rw (h', process_intersection_member) (rw h refl)
  ]

  pub keeping-both :
      (j : ℕ) (p : MemberRow) (u : Member)
      → map_get j originals ≡ some p
      → map_get j updateds ≡ some u
      → keeping j ≡ rank_change never guild at p u
  unfolding process_intersection_member
  keeping-both j p u h h' = rw (h, process_intersection_member) (rw h' refl)

  pub leaving-missing : (j : ℕ) → map_get j originals ≡ none → leaving j ≡ []
  unfolding process_leave_member
  leaving-missing j h = rw (h, process_leave_member) refl

  pub leaving-row :
      (j : ℕ) (p : MemberRow)
      → map_get j originals ≡ some p
      → leaving j ≡ leave_commands never guild at p
  unfolding process_leave_member
  leaving-row j p h = rw (h, process_leave_member) refl

  joining-missing : (first : Bool) (j : ℕ) → map_get j updateds ≡ none → joining first j ≡ []
  unfolding process_join_member
  joining-missing first j h = rw (h, process_join_member) refl

  joining-member :
      (first : Bool) (j : ℕ) (u : Member)
      → map_get j updateds ≡ some u
      → joining first j ≡ join_commands never guild at first u
  unfolding process_join_member
  joining-member first j u h = rw (h, process_join_member) refl

  pub nothing : (cs : List Command) (i : ℕ) (s : Option MemberRow) → cs ≡ [] → effects cs i s ≡ s
  unfolding effects
  nothing cs i s e = rw e refl

  -- The visits to others, and to those who are not in the guild, change nothing.
  pub keeping-none : (i j : ℕ) → effects (keeping j) i none ≡ none
  keeping-none i j = elim (Option-cases (map_get j originals)) [
    | inl h ↦ nothing (keeping j) i none (keeping-missing j h)
    | inr (p, h) ↦ elim (Option-cases (map_get j updateds)) [
      | inl h' ↦ nothing (keeping j) i none (keeping-gone j h')
      | inr (u, h') ↦ rw (keeping-both j p u h h') (rank_change-none guild at p u i)
    ]
  ]

  pub keeping-other :
      (i j : ℕ) (o r : MemberRow)
      → map_get i originals ≡ some o
      → r.character_guid ≡ o.character_guid
      → j ≢ i
      → effects (keeping j) i (some r) ≡ some r
  keeping-other i j o r e g ne = elim (Option-cases (map_get j originals)) [
    | inl h ↦ nothing (keeping j) i (some r) (keeping-missing j h)
    | inr (p, h) ↦ elim (Option-cases (map_get j updateds)) [
      | inl h' ↦ nothing (keeping j) i (some r) (keeping-gone j h')
      | inr (u, h') ↦ rw (keeping-both j p u h h') (
          rank_change-other guild at p r u i
            (λ same. ne (k.distinct j i p o h e (sym (sym g ∙ same)))))
    ]
  ]

  pub leaving-none : (i j : ℕ) → effects (leaving j) i none ≡ none
  leaving-none i j = elim (Option-cases (map_get j originals)) [
    | inl h ↦ nothing (leaving j) i none (leaving-missing j h)
    | inr (p, h) ↦ rw (leaving-row j p h) (leave_commands-none guild at p i)
  ]

  pub leaving-other :
      (i j : ℕ) (r : MemberRow)
      → ((p : MemberRow) → map_get j originals ≡ some p → r.character_guid ≢ p.character_guid)
      → effects (leaving j) i (some r) ≡ some r
  leaving-other i j r safe = elim (Option-cases (map_get j originals)) [
    | inl h ↦ nothing (leaving j) i (some r) (leaving-missing j h)
    | inr (p, h) ↦ rw (leaving-row j p h) (leave_commands-other guild at p r i (safe p h))
  ]

  -- Each member is found in the roster under its own id.
  module _ (keyed : (j : ℕ) (u : Member) → map_get j updateds ≡ some u → u.id ≡ j) where
    pub joining-other :
        (first : Bool) (i j : ℕ) (s : Option MemberRow) → j ≢ i → effects (joining first j) i s ≡ s
    joining-other first i j s ne = elim (Option-cases (map_get j updateds)) [
      | inl h ↦ nothing (joining first j) i s (joining-missing first j h)
      | inr (u, h) ↦
          rw (joining-member first j u h)
            (join_commands-other guild at first u i s (λ same. ne (sym (keyed j u h) ∙ same)))
    ]

    pub joining_self :
        (first : Bool) (i : ℕ) (u : Member) (s : Option MemberRow)
        → map_get i updateds ≡ some u
        → effects (joining first i) i s ≡ some (joined_row guild at u)
    joining_self first i u s h =
        rw (joining-member first i u h) (join_commands_self guild at first u i s (keyed i u h))
