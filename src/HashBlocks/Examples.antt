-- ===== src/HashBlocks/Examples.antt =====
-- Two characters of one account, a character whose hash is a collision's, and one that has moved.
use cmnw.Prelude.{
  truthy_text, ℕ, true, false, none, some, [], ◌∷◌, ◌≡◌, ◌≢◌, refl, Text, codes, Memᴰ, same_text,
}
use cmnw.HashBlocks.{
  HashAction, Character, Member, Tables, reconcile_character, open_block, run_backfill, first_of,
  load_membership_with_context, find_accurate_block_by_hash_value, handle_no_membership,
  join_or_genesis, process_join, process_genesis, save_member, save_members, save_block, insert_log,
  recompute_block_state, hash_a_frequencies, count_hash, set_frequency, frequency, is_shared,
  confirm_each, update_members, update_blocks,
}
use cmnw.HashBlocks.Settled.{IsConsistent}
use cmnw.HashBlocks.Invariant.{reconcile_character-IsConsistent}
use cmnw.HashBlocks.Joining.{has_member}
use cmnw.HashBlocks.Outcome.{reconcile_character-has_member}
use cmnw.HashBlocks.Blocks.{IsCovered, has_block}
use cmnw.HashBlocks.Backfill.{run_backfill_total}

abbrev jaina : Character
jaina = record { guid = codes "jaina"; hash_a = some (codes "a1"); hash_b = some (codes "b1") }

abbrev thrall : Character
thrall = record { guid = codes "thrall"; hash_a = some (codes "a1"); hash_b = some (codes "b1") }

abbrev start : Tables
start = record {
  characters = jaina ∷ thrall ∷ [];
  blocks = [];
  members = [];
  logs = [];
  next_id = 1;
}

abbrev member : ℕ → Character → Member
member id c = record {
  id = id;
  block_id = 1;
  character_guid = c.guid;
  hash_a = c.hash_a;
  hash_b = c.hash_b;
  is_confirmed = true;
  joined_at = 5;
}

-- One block, with both characters, which have the first hash in common.
abbrev together : Tables
together = record start {
  blocks =
      record {
        id = 1;
        hash_value = codes "b1";
        characters_count = 2;
        confirmed_count = 2;
        is_collision = false;
        first_seen_at = 7;
        last_seen_at = 7;
      }
      ∷ [];
  members = member 2 jaina ∷ member 3 thrall ∷ [];
  logs =
      record {
        block_id = some 1;
        character_guid = none;
        hash_value = some (codes "b1");
        hash_a = none;
        hash_b = some (codes "b1");
        action = HashAction.genesis;
        original = none;
        updated = none;
        members_count = some 2;
        scanned_at = 7;
      }
      ∷ [];
  next_id = 4;
}

reconciled : reconcile_character 5 7 (codes "jaina") start ≡ some together
unfolding reconcile_character first_of load_membership_with_context
    find_accurate_block_by_hash_value handle_no_membership join_or_genesis process_join
    process_genesis open_block save_member save_members save_block insert_log recompute_block_state
    hash_a_frequencies count_hash set_frequency frequency is_shared confirm_each update_members
    update_blocks truthy_text
reconciled = refl

start-IsConsistent : IsConsistent start
start-IsConsistent = record { distinct = tt; members_below = tt; blocks_below = tt; settled = tt }

reconcile_character-IsConsistent_example : IsConsistent together
reconcile_character-IsConsistent_example =
    reconcile_character-IsConsistent 5 7 (codes "jaina") start reconciled start-IsConsistent

found : first_of (λ d. same_text d.guid (codes "jaina")) start.characters ≡ some jaina
unfolding first_of
found = refl

reconcile_character-has_member_example : has_member (codes "jaina") together.members ≡ true
reconcile_character-has_member_example =
    reconcile_character-has_member 5 7 (codes "jaina") start reconciled found refl

-- A block of too many characters, whose members are not shown.
abbrev crowded : Tables
crowded = record start {
  blocks =
      record {
        id = 1;
        hash_value = codes "b1";
        characters_count = 71;
        confirmed_count = 0;
        is_collision = true;
        first_seen_at = 7;
        last_seen_at = 7;
      }
      ∷ [];
  next_id = 2;
}

outside : load_membership_with_context crowded (codes "jaina") ≡ none
unfolding load_membership_with_context first_of
outside = refl

no_accurate : find_accurate_block_by_hash_value crowded (codes "b1") ≡ none
unfolding find_accurate_block_by_hash_value first_of
no_accurate = refl

-- Jaina has another second hash than as a member of the block.
abbrev moved : Character
moved = record jaina { hash_b = some (codes "b2") }

abbrev after_move : Tables
after_move = record together { characters = moved ∷ thrall ∷ [] }

different : thrall.guid ≢ jaina.guid
different e = cc e

start-IsCovered :
    (c : Character) (h : Text)
    → Memᴰ c start.characters
    → c.hash_b ≡ some h
    → has_member c.guid start.members ≡ has_block h start.blocks
start-IsCovered c h m q = refl

run_backfill_total_example :
    let r = run_backfill 5 7 (codes "b1" ∷ []) start in
    (r.1 ≡ true)
    × (r.0.characters ≡ start.characters)
    × IsCovered r.0
    × ((k : Text) → has_block k start.blocks ≡ true → has_block k r.0.blocks ≡ true)
    × ((c : Character) (h : Text)
        → Memᴰ c start.characters
        → Memᴰ h (codes "b1" ∷ [])
        → c.hash_b ≡ some h
        → has_member c.guid r.0.members ≡ true)
run_backfill_total_example =
    run_backfill_total 5 7 (codes "b1" ∷ []) start ((different, tt), (tt, tt)) start-IsCovered
