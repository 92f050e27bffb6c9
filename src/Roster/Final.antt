-- ===== src/Roster/Final.antt =====
-- The rows of the guild after the changes of a roster have been processed.
use cmnw.Prelude.{
  ℕ, true, false, not, ◌&&◌, Option, none, some, List, [], ◌++◌, ◌≡◌, ◌≢◌, refl, sym, ◌∙◌, ap,
  arith, ◌==◌, any, map_get, map_of, All, Option-cases, inl, inr, Bool-cases, ==_iff, is_some,
  any-map_keys, map_get-map_of,
}
use cmnw.Roster.{
  Guild, Member, MemberRow, joined_row, flat_map, process_roster_changes, compare_rosters, IdSets,
  Comparison,
}
use cmnw.Roster.Table.{
  effects, effects-append, kept_row, expected_row, IsConsistent, IsIdSets, MemberTable, execute_all,
  row_at-execute_all,
}
use cmnw.Roster.Steps.{never, rank_change_self, rank_change-again, leave_commands_self}
use cmnw.Roster.Visits.{
  kept_row-guids, ne_of_==, All-any, All-ne_of_absent, All-map, everywhere, flat_map-fixed,
  flat_map-reaches, keeping, leaving, joining, keeping-both, keeping-gone, nothing, keeping-none,
  keeping-other, leaving-row, leaving-none, leaving-other, joining-other, joining_self,
}

abbrev pub originals_of : List MemberRow → List (ℕ × MemberRow)
originals_of rows = map_of (λ (r : MemberRow). r.character_id) [] rows

abbrev pub updateds_of : List Member → List (ℕ × Member)
updateds_of members = map_of (λ (m : Member). m.id) [] members

module _ (sets : IdSets) (l : IsIdSets sets) (guild : Guild) (at : ℕ) (rows : List MemberRow)
    (members : List Member) (k : IsConsistent guild (originals_of rows) (updateds_of members)) where
  abbrev c : Comparison
  c = compare_rosters sets rows members

  any-intersect_ids :
      (i : ℕ)
      → any (λ j. j == i) c.intersect_ids
        ≡ (is_some (map_get i (updateds_of members)) && is_some (map_get i (originals_of rows)))
  unfolding compare_rosters
  any-intersect_ids i =
      rw
        (
          l.any-intersection _ _ i,
          any-map_keys i (updateds_of members),
          any-map_keys i (originals_of rows),
        )
        refl

  any-joined_ids :
      (i : ℕ)
      → any (λ j. j == i) c.joined_ids ≡ (
          is_some (map_get i (updateds_of members))
          && not (is_some (map_get i (originals_of rows))))
  unfolding compare_rosters
  any-joined_ids i =
      rw
        (
          l.any-difference _ _ i,
          any-map_keys i (updateds_of members),
          any-map_keys i (originals_of rows),
        )
        refl

  any-leave_ids :
      (i : ℕ)
      → any (λ j. j == i) c.leave_ids ≡ (
          is_some (map_get i (originals_of rows))
          && not (is_some (map_get i (updateds_of members))))
  unfolding compare_rosters
  any-leave_ids i =
      rw
        (
          l.any-difference _ _ i,
          any-map_keys i (updateds_of members),
          any-map_keys i (originals_of rows),
        )
        refl

  none_of_not_some : (o : Option Member) → not (is_some o) ≡ true → o ≡ none
  none_of_not_some none h = refl
  none_of_not_some (some u) h = cc

  some_is_not_none : (u : Member) → some u ≢ none
  some_is_not_none u e = cc

  leavers-gone : All (λ j. map_get j (updateds_of members) ≡ none) c.leave_ids
  leavers-gone =
      All-map
        (λ j inside.
          none_of_not_some (map_get j (updateds_of members)) (ground (arith, any-leave_ids j)))
        c.leave_ids (All-any c.leave_ids)

  abbrev row_after : ℕ → Option MemberRow → Option MemberRow
  row_after i o = effects (process_roster_changes never guild at c) i o

  abbrev o_map : List (ℕ × MemberRow)
  o_map = originals_of rows

  abbrev u_map : List (ℕ × Member)
  u_map = updateds_of members

  -- The three phases one after the other.
  row_after-phases :
      (i : ℕ) (s t u v : Option MemberRow)
      → effects (flat_map (keeping guild at o_map u_map k) c.intersect_ids) i s ≡ t
      → effects
          (flat_map (joining guild at o_map u_map k c.is_first_time_roster_indexed) c.joined_ids)
          i
          t
        ≡ u
      → effects (flat_map (leaving guild at o_map u_map k) c.leave_ids) i u ≡ v
      → row_after i s ≡ v
  unfolding process_roster_changes compare_rosters
  row_after-phases i s t u v e f g =
      effects-append (flat_map (keeping guild at o_map u_map k) c.intersect_ids)
        (flat_map (joining guild at o_map u_map k c.is_first_time_roster_indexed) c.joined_ids
          ++ flat_map (leaving guild at o_map u_map k) c.leave_ids)
        i s
      ∙ effects-append
          (flat_map (joining guild at o_map u_map k c.is_first_time_roster_indexed) c.joined_ids)
          (flat_map (leaving guild at o_map u_map k) c.leave_ids) i
          (effects (flat_map (keeping guild at o_map u_map k) c.intersect_ids) i s)
      ∙ rw (e, f) g

  keyed : (j : ℕ) (u : Member) → map_get j u_map ≡ some u → u.id ≡ j
  keyed = map_get-map_of (λ (m : Member). m.id) members

  -- Nobody but the character itself joins for it.
  no_join :
      (i : ℕ) (s : Option MemberRow)
      → any (λ j. j == i) c.joined_ids ≡ false
      → effects
          (flat_map (joining guild at o_map u_map k c.is_first_time_roster_indexed) c.joined_ids)
          i
          s
        ≡ s
  no_join i s absent =
      flat_map-fixed (joining guild at o_map u_map k c.is_first_time_roster_indexed) i s
        c.joined_ids
        (All-map
          (λ j ne.
            joining-other guild at o_map u_map k keyed c.is_first_time_roster_indexed i j s ne)
          c.joined_ids (All-ne_of_absent i c.joined_ids absent))

  no_leave :
      (i : ℕ) (r : MemberRow)
      → ((j : ℕ) (p : MemberRow)
          → map_get j o_map ≡ some p
          → map_get j u_map ≡ none
          → r.character_guid ≢ p.character_guid)
      → effects (flat_map (leaving guild at o_map u_map k) c.leave_ids) i (some r) ≡ some r
  no_leave i r safe = flat_map-fixed (leaving guild at o_map u_map k) i (some r) c.leave_ids (
      All-map (λ j gone. leaving-other guild at o_map u_map k i j r (λ p e. safe j p e gone))
        c.leave_ids leavers-gone)

  row_after-absent :
      (i : ℕ) → map_get i o_map ≡ none → map_get i u_map ≡ none → row_after i none ≡ none
  row_after-absent i e f =
      row_after-phases i none none none none
        (flat_map-fixed (keeping guild at o_map u_map k) i none c.intersect_ids
          (everywhere (keeping-none guild at o_map u_map k i) c.intersect_ids))
        (no_join i none (any-joined_ids i ∙ rw (e, f) refl))
        (flat_map-fixed (leaving guild at o_map u_map k) i none c.leave_ids
          (everywhere (leaving-none guild at o_map u_map k i) c.leave_ids))

  joined_again :
      (i : ℕ) (u : Member)
      → map_get i u_map ≡ some u
      → (j : ℕ)
      → effects
          (joining guild at o_map u_map k c.is_first_time_roster_indexed j)
          i
          (some (joined_row guild at u))
        ≡ some (joined_row guild at u)
  joined_again i u f j = elim (Bool-cases (j == i)) [
    | inl same ↦
        ap
          (λ n.
            effects (joining guild at o_map u_map k c.is_first_time_roster_indexed n) i
              (some (joined_row guild at u)))
          ((==_iff j i).0 same)
        ∙ joining_self guild at o_map u_map k keyed c.is_first_time_roster_indexed i u
            (some (joined_row guild at u)) f
    | inr other ↦
        joining-other guild at o_map u_map k keyed c.is_first_time_roster_indexed i j
          (some (joined_row guild at u)) (ne_of_== j i other)
  ]

  row_after-join :
      (i : ℕ) (u : Member)
      → map_get i o_map ≡ none
      → map_get i u_map ≡ some u
      → row_after i none ≡ some (joined_row guild at u)
  row_after-join i u e f =
      row_after-phases i none none (some (joined_row guild at u)) (some (joined_row guild at u))
        (flat_map-fixed (keeping guild at o_map u_map k) i none c.intersect_ids
          (everywhere (keeping-none guild at o_map u_map k i) c.intersect_ids))
        (flat_map-reaches (joining guild at o_map u_map k c.is_first_time_roster_indexed) i none
          (some (joined_row guild at u)) c.joined_ids
          (everywhere
            (λ j ne.
              joining-other guild at o_map u_map k keyed c.is_first_time_roster_indexed i j none ne)
            c.joined_ids)
          (joining_self guild at o_map u_map k keyed c.is_first_time_roster_indexed i u none f)
          (everywhere (joined_again i u f) c.joined_ids) (any-joined_ids i ∙ rw (e, f) refl))
        (no_leave i (joined_row guild at u) (λ j p h gone. k.fresh i j u p e f h gone))

  kept_gone :
      (i : ℕ) (o : MemberRow)
      → map_get i o_map ≡ some o
      → map_get i u_map ≡ none
      → (j : ℕ) → effects (keeping guild at o_map u_map k j) i (some o) ≡ some o
  kept_gone i o e f j = elim (Bool-cases (j == i)) [
    | inl same ↦ nothing guild at o_map u_map k (keeping guild at o_map u_map k j) i (some o) (
        keeping-gone guild at o_map u_map k j (ap (λ n. map_get n u_map) ((==_iff j i).0 same) ∙ f))
    | inr other ↦ keeping-other guild at o_map u_map k i j o o e refl (ne_of_== j i other)
  ]

  left_other :
      (i : ℕ) (o : MemberRow)
      → map_get i o_map ≡ some o
      → (j : ℕ) → j ≢ i
      → effects (leaving guild at o_map u_map k j) i (some o) ≡ some o
  left_other i o e j ne =
      leaving-other guild at o_map u_map k i j o
        (λ p h same. ne (k.distinct j i p o h e (sym same)))

  kept_again :
      (i : ℕ) (o : MemberRow) (u : Member)
      → map_get i o_map ≡ some o
      → map_get i u_map ≡ some u
      → (j : ℕ)
      → effects (keeping guild at o_map u_map k j) i (some (kept_row o u)) ≡ some (kept_row o u)
  kept_again i o u e f j = elim (Bool-cases (j == i)) [
    | inl same ↦
        ap (λ n. effects (keeping guild at o_map u_map k n) i (some (kept_row o u)))
          ((==_iff j i).0 same)
        ∙ rw (keeping-both guild at o_map u_map k i o u e f) (rank_change-again guild at o u i)
    | inr other ↦
        keeping-other guild at o_map u_map k i j o (kept_row o u) e (kept_row-guids o u).0
          (ne_of_== j i other)
  ]

  row_after-leave :
      (i : ℕ) (o : MemberRow)
      → map_get i o_map ≡ some o
      → map_get i u_map ≡ none
      → row_after i (some o) ≡ none
  row_after-leave i o e f =
      row_after-phases i (some o) (some o) (some o) none
        (flat_map-fixed (keeping guild at o_map u_map k) i (some o) c.intersect_ids
          (everywhere (kept_gone i o e f) c.intersect_ids))
        (no_join i (some o) (any-joined_ids i ∙ rw (e, f) refl))
        (flat_map-reaches (leaving guild at o_map u_map k) i (some o) none c.leave_ids
          (everywhere (left_other i o e) c.leave_ids)
          (rw (leaving-row guild at o_map u_map k i o e)
            (leave_commands_self guild at o i (k.own i o e)))
          (everywhere (leaving-none guild at o_map u_map k i) c.leave_ids)
          (any-leave_ids i ∙ rw (e, f) refl))

  stays_apart :
      (i j : ℕ) (o : MemberRow) (u : Member) (p : MemberRow)
      → map_get i o_map ≡ some o
      → map_get i u_map ≡ some u
      → map_get j o_map ≡ some p
      → map_get j u_map ≡ none
      → (kept_row o u).character_guid ≢ p.character_guid
  stays_apart i j o u p e f h gone same = some_is_not_none u (
      sym f
      ∙ ap (λ n. map_get n u_map) (k.distinct i j o p e h (sym (kept_row-guids o u).0 ∙ same))
      ∙ gone)

  row_after-stay :
      (i : ℕ) (o : MemberRow) (u : Member)
      → map_get i o_map ≡ some o
      → map_get i u_map ≡ some u
      → row_after i (some o) ≡ some (kept_row o u)
  row_after-stay i o u e f =
      row_after-phases i (some o) (some (kept_row o u)) (some (kept_row o u)) (some (kept_row o u))
        (flat_map-reaches (keeping guild at o_map u_map k) i (some o) (some (kept_row o u))
          c.intersect_ids
          (everywhere (λ j ne. keeping-other guild at o_map u_map k i j o o e refl ne)
            c.intersect_ids)
          (rw (keeping-both guild at o_map u_map k i o u e f)
            (rank_change_self guild at o u i (k.own i o e)))
          (everywhere (kept_again i o u e f) c.intersect_ids)
          (any-intersect_ids i ∙ rw (e, f) refl))
        (no_join i (some (kept_row o u)) (any-joined_ids i ∙ rw (e, f) refl))
        (no_leave i (kept_row o u) (λ j p h gone same. stays_apart i j o u p e f h gone same))

  row_after-expected :
      (i : ℕ)
      → effects (process_roster_changes never guild at c) i (map_get i o_map)
        ≡ expected_row guild at (map_get i o_map) (map_get i u_map)
  unfolding expected_row
  row_after-expected i = elim (Option-cases (map_get i o_map)) [
    | inl e ↦ elim (Option-cases (map_get i u_map)) [
      | inl f ↦ rw (e, f) (row_after-absent i e f)
      | inr (u, f) ↦ rw (e, f) (row_after-join i u e f)
    ]
    | inr (o, e) ↦ elim (Option-cases (map_get i u_map)) [
      | inl f ↦ rw (e, f) (row_after-leave i o e f)
      | inr (u, f) ↦ rw (e, f) (row_after-stay i o u e f)
    ]
  ]

  -- In every table whose commands have the documented effect, with set functions that have the
  -- documented membership, over rows that fit together with the roster, the commands that
  -- processRosterChanges issues for compareRosters, none of which fails, leave under every id the
  -- expected row, if the table had there the row that was read: the row of a member who stays with
  -- the new rank (the guild master's rank aside), a new row for a member who is new, and none for
  -- one who is gone.
  pub row_at-process_roster_changes :
      {Db : Type 0}
      → (t : MemberTable Db) (db : Db) (i : ℕ) → t.row_at db i ≡ map_get i o_map
      → t.row_at
          (execute_all t
            (process_roster_changes never guild at (compare_rosters sets rows members))
            db)
          i
        ≡ expected_row guild at (map_get i o_map) (map_get i u_map)
  row_at-process_roster_changes t db i e =
      row_at-execute_all t (process_roster_changes never guild at c) db i
      ∙ ap (effects (process_roster_changes never guild at c) i) e
      ∙ row_after-expected i
