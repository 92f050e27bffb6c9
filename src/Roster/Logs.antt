-- ===== src/Roster/Logs.antt =====
-- What is logged of the changes of a roster.
use cmnw.Prelude.{
  ℕ, Bool, true, false, not, ◌&&◌, ◌||◌, List, [], ◌∷◌, ◌++◌, ◌≡◌, refl, ◌∙◌, arith, ◌==◌, any,
  map_get, map_of, Option-cases, inl, inr,
}
use cmnw.Roster.{
  Guild, Member, MemberRow, Command, save_log, save_member, update_member, delete_member,
  update_rank, enter_guild, clear_guild, gm_rank, settle_and_log, awaited, rank_commands,
  rank_change, process_intersection_member, join_commands, process_join_member, leave_commands,
  process_leave_member, process_roster_changes, compare_rosters, IdSets, flat_map,
}
use cmnw.Roster.Steps.{never}

abbrev pub is_log : Command → Bool
is_log (save_log l) = true
is_log (save_member r) = false
is_log (update_member c g r) = false
is_log (delete_member g c) = false
is_log (update_rank g i r) = false
is_log (enter_guild g i u r) = false
is_log (clear_guild g u) = false

any-append : (p : Command → Bool) (cs ds : List Command) → any p (cs ++ ds) ≡ (any p cs || any p ds)
any-append p [] ds = refl
any-append p (c ∷ cs) ds = ground (arith, any-append p cs ds)

any-flat_map :
    (p : Command → Bool) (f : ℕ → List Command) (is : List ℕ)
    → ((i : ℕ) → any p (f i) ≡ false)
    → any p (flat_map f is) ≡ false
unfolding flat_map
any-flat_map p f [] h = refl
any-flat_map p f (i ∷ is) h =
    any-append p (f i) (flat_map f is) ∙ rw (h i, any-flat_map p f is h) refl

module _ (fails : Command → Bool) (guild : Guild) (at : ℕ) where
  join_commands-first : (u : Member) → any is_log (join_commands fails guild at true u) ≡ false
  unfolding join_commands settle_and_log
  join_commands-first u = ground arith

  process_join_member-first :
      (updateds : List (ℕ × Member)) (i : ℕ)
      → any is_log (process_join_member fails guild at true updateds i) ≡ false
  unfolding process_join_member
  process_join_member-first updateds i = elim (Option-cases (map_get i updateds)) [
    | inl h ↦ rw (process_join_member, h) refl
    | inr (u, h) ↦ rw (process_join_member, h) (join_commands-first u)
  ]

  nothing_kept :
      (updateds : List (ℕ × Member)) (i : ℕ)
      → any is_log (process_intersection_member fails guild at [] updateds i) ≡ false
  unfolding process_intersection_member map_get
  nothing_kept updateds i = refl

  nobody_leaves : (i : ℕ) → any is_log (process_leave_member fails guild at [] i) ≡ false
  unfolding process_leave_member map_get
  nobody_leaves i = refl

  -- The first time the roster of a guild is indexed, nothing is logged, whatever fails.
  pub any-first_index :
      (sets : IdSets) (members : List Member)
      → any is_log (process_roster_changes fails guild at (compare_rosters sets [] members)) ≡ false
  unfolding process_roster_changes compare_rosters map_of
  any-first_index sets members =
      let c = compare_rosters sets [] members in
      let joins =
        flat_map (process_join_member fails guild at true c.updated_roster) c.joined_ids in
      let leaves = flat_map (process_leave_member fails guild at []) c.leave_ids in
      let keeps =
        flat_map (process_intersection_member fails guild at [] c.updated_roster) c.intersect_ids in
      any-append is_log keeps (joins ++ leaves)
      ∙ rw
          (
            any-flat_map is_log (process_intersection_member fails guild at [] c.updated_roster)
                c.intersect_ids (nothing_kept c.updated_roster),
            any-append is_log joins leaves,
            any-flat_map is_log (process_join_member fails guild at true c.updated_roster)
                c.joined_ids (process_join_member-first c.updated_roster),
            any-flat_map is_log (process_leave_member fails guild at []) c.leave_ids nobody_leaves,
          )
          refl

-- Where no command fails: neither the coming nor the going of a guild master, nor a change to or
-- from that rank, is logged with the members; every other coming to a guild that has been indexed,
-- going, and change of rank is.
pub any-member_logs :
    (guild : Guild) (at : ℕ) (o : MemberRow) (u : Member)
    → (any is_log (join_commands never guild at false u) ≡ not (u.rank == gm_rank))
      × (any is_log (leave_commands never guild at o) ≡ not (o.rank == gm_rank))
      × (any is_log (rank_change never guild at o u)
          ≡ (not (u.rank == o.rank) && (not (o.rank == gm_rank) && not (u.rank == gm_rank))))
unfolding join_commands leave_commands rank_change rank_commands settle_and_log awaited
any-member_logs guild at o u = (ground arith, ground arith, ground arith)
