-- ===== src/HashBlocks.antt =====
-- Blocks of characters with one hash, which stand for one account:
-- apps/osint/src/services/hash-block.service.ts. The tables of the database are a state; a
-- transaction gives the new tables, or `none` where it throws, and then leaves the old ones. The
-- database generates the ids, and keeps the guids of members and the hash values of blocks unique.
mod Rows
pub mod Settled
pub mod Frequencies
pub mod Recompute
pub mod Steps
pub mod Departures
pub mod Invariant
pub mod Joining
pub mod Outcome
pub mod Blocks
pub mod Coverage
pub mod Backfill
pub mod Examples
use cmnw.Prelude.{
  ℕ, zero, suc, ◌+◌, Bool, true, false, not, ◌&&◌, ◌||◌, Option, none, some, List, [], ◌∷◌, ◌++◌,
  map, ◌==◌, ltb, leb, if◌then◌else◌, keep, any, length, Text, codes, same_text, same_option,
  truthy_text,
}
unfoldable pub use Rows.{
  first_of, update_members, update_blocks, delete_members, save_member, save_members, save_block,
  insert_log, find_accurate_block_by_hash_value, frequency, set_frequency, count_hash,
  hash_a_frequencies, is_shared, confirm_each, recompute_block_state,
}
pub use Rows.{
  HashAction, max_characters_per_account, Character, Block, Member, Log, Tables, Membership,
  of_block, genesis, join, leave, migrate, hash_a_change, hash_b_change,
}

-- What `insertLog` stores of an entry that gives only these fields.
abbrev pub log_of :
    Option ℕ → Option Text → Option Text → Option Text → Option Text → HashAction → ℕ → Log
log_of block_id guid hash_value hash_a hash_b action scanned_at = record {
  block_id = block_id;
  character_guid = guid;
  hash_value = hash_value;
  hash_a = hash_a;
  hash_b = hash_b;
  action = action;
  original = none;
  updated = none;
  members_count = none;
  scanned_at = scanned_at;
}

unfoldable pub load_membership_with_context : Tables → Text → Option Membership
load_membership_with_context t guid =
    elim (first_of (λ m. same_text m.character_guid guid) t.members) [
      | none ↦ none
      | some m ↦ elim (first_of (λ b. b.id == m.block_id) t.blocks) [
        | none ↦ none
        | some b ↦ some (record {
          member = m;
          block_hash_value = b.hash_value;
          block_is_collision = b.is_collision;
        })
      ]
    ]

-- `now` is what `new Date()` gives in the transaction.
module _ (now scanned_at : ℕ) where
  abbrev pub member_of : ℕ → Character → Member
  member_of block_id c = record {
    id = 0;
    block_id = block_id;
    character_guid = c.guid;
    hash_a = c.hash_a;
    hash_b = c.hash_b;
    is_confirmed = false;
    joined_at = now;
  }

  unfoldable pub process_join : Block → Character → Tables → Option Tables
  process_join b c t = elim (save_member (member_of b.id c) t) [
    | none ↦ none
    | some t' ↦ some (
        recompute_block_state b.id scanned_at (
          insert_log
            (log_of (some b.id) (some c.guid) (some b.hash_value) c.hash_a c.hash_b join scanned_at)
            t'))
  ]

  abbrev pub new_block : Bool → Text → Block
  new_block is_collision h = record {
    id = 0;
    hash_value = h;
    characters_count = 0;
    confirmed_count = 0;
    is_collision = is_collision;
    first_seen_at = scanned_at;
    last_seen_at = scanned_at;
  }

  -- What `processGenesis` and `runBackfill` do alike, less the first flag of the block.
  unfoldable pub open_block : Bool → Text → Tables → Option Tables
  open_block is_collision hash_value t = elim (save_block (new_block is_collision hash_value) t) [
    | none ↦ none
    | some t' ↦
        let candidates = keep (λ c. same_option c.hash_b (some hash_value)) t'.characters in
        let members = map (member_of t.next_id) candidates in
        elim (save_members members t') [
          | none ↦ none
          | some t'' ↦ some (
              recompute_block_state t.next_id scanned_at (
                insert_log
                  (record (log_of (some t.next_id) none (some hash_value) none (some hash_value)
                    genesis scanned_at) { members_count = some (length members) })
                  t''))
        ]
  ]

  unfoldable pub process_genesis : Text → Tables → Option Tables
  process_genesis hash_value t = open_block false hash_value t

  -- The join of an accurate block with the hash value, or a new block for it.
  unfoldable pub join_or_genesis : Character → Text → Tables → Option Tables
  join_or_genesis c h t = elim (find_accurate_block_by_hash_value t h) [
    | some b ↦ process_join b c t
    | none ↦ process_genesis h t
  ]

  unfoldable pub handle_no_membership : Character → Tables → Option Tables
  handle_no_membership c t = elim c.hash_b [ none ↦ some t | some h ↦ join_or_genesis c h t ]

  -- The log of a change of the first or the second hash, if it has changed.
  abbrev pub log_change :
      Bool → Membership → Character → HashAction → Option Text → Option Text → Tables → Tables
  log_change changed ms c action original updated t =
      if changed
      then insert_log
          (record (log_of (some ms.member.block_id) (some c.guid) (some ms.block_hash_value)
            c.hash_a c.hash_b action scanned_at) { original = original; updated = updated })
          t
      else t

  unfoldable pub handle_accurate_block : Membership → Character → Tables → Tables
  handle_accurate_block ms c t =
      let a_changed = not (same_option ms.member.hash_a c.hash_a) in
      let b_changed = not (same_option ms.member.hash_b c.hash_b) in
      let touched = record t {
        blocks =
            update_blocks ms.member.block_id (λ b. record b { last_seen_at = scanned_at }) t.blocks;
      } in
      let updated = record t {
        members =
            update_members ms.member.id (λ m. record m { hash_a = c.hash_a; hash_b = c.hash_b })
              t.members;
      } in
      if not a_changed && not b_changed
      then touched
      else recompute_block_state ms.member.block_id scanned_at (
          log_change b_changed ms c hash_b_change ms.member.hash_b c.hash_b
            (log_change a_changed ms c hash_a_change ms.member.hash_a c.hash_a updated))

  unfoldable pub process_leave :
      Membership → HashAction → Option Text → Option Text → Tables → Tables
  process_leave ms action original updated t = recompute_block_state ms.member.block_id scanned_at (
      insert_log
        (record (log_of (some ms.member.block_id) (some ms.member.character_guid) original
          ms.member.hash_a ms.member.hash_b action scanned_at) {
            original = original;
            updated = updated;
          })
        (record t { members = delete_members ms.member.id t.members }))

  unfoldable pub handle_collision_divergence : Membership → Character → Tables → Option Tables
  handle_collision_divergence ms c t =
      let left = process_leave ms migrate (some ms.block_hash_value) c.hash_b t in
      elim c.hash_b [ none ↦ some left | some h ↦ join_or_genesis c h left ]

  -- One job of the queue; `none` where it throws.
  unfoldable pub reconcile_character : Text → Tables → Option Tables
  reconcile_character guid t = elim (first_of (λ c. same_text c.guid guid) t.characters) [
    | none ↦ some t
    | some c ↦ elim (load_membership_with_context t guid) [
      | none ↦ handle_no_membership c t
      | some ms ↦
          if not ms.block_is_collision || same_option c.hash_b (some ms.block_hash_value)
          then some (handle_accurate_block ms c t)
          else handle_collision_divergence ms c t
    ]
  ]

  -- One group of characters of the backfill, with its transaction.
  unfoldable pub backfill_group : Text → Tables → Option Tables
  backfill_group h t = elim (first_of (λ c. same_option c.hash_b (some h)) t.characters) [
    | none ↦ some t
    | some placeholder ↦
        if any (λ b. same_text b.hash_value h) t.blocks
        then some t
        else open_block
            (ltb max_characters_per_account
              (length (keep (λ c. same_option c.hash_b (some h)) t.characters)))
            h t
  ]

  -- The groups in the order of the query. A throw ends the loop, and the transactions before it
  -- stay; the flag tells whether all groups were done.
  unfoldable pub run_backfill : List Text → Tables → Tables × Bool
  run_backfill [] t = (t, true)
  run_backfill (h ∷ hs) t = elim (backfill_group h t) [
    | none ↦ (t, false)
    | some t' ↦ run_backfill hs t'
  ]

  -- The error of a backfill is caught and logged.
  unfoldable pub on_application_bootstrap : List Text → Tables → Tables
  on_application_bootstrap groups t =
      if ltb 0 (length t.blocks) then t else (run_backfill groups t).0
