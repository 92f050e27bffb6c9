-- ===== src/HashBlocks/Rows.antt =====
-- The tables of apps/osint/src/services/hash-block.service.ts, their queries and writes, and
-- `recomputeBlockState`.
use cmnw.Prelude.{
  ℕ, suc, ◌+◌, Bool, false, not, ◌&&◌, Option, none, some, List, [], ◌∷◌, ◌++◌, map, ◌==◌, ltb,
  if◌then◌else◌, keep, any, length, Text, same_text, truthy_text,
}

-- HASH_BLOCK_ACTION
pub data HashAction : Type 0 where
  genesis join leave migrate hash_a_change hash_b_change : HashAction

-- MAX_CHARACTERS_PER_ACCOUNT
abbrev pub max_characters_per_account : ℕ
max_characters_per_account = 70

-- The fields of CharactersEntity that are selected.
pub record Character : Type 0 where
  pub guid : Text
  pub hash_a : Option Text
  pub hash_b : Option Text

-- HashBlocksEntity, less the times of the row.
pub record Block : Type 0 where
  pub id : ℕ
  pub hash_value : Text
  pub characters_count : ℕ
  pub confirmed_count : ℕ
  pub is_collision : Bool
  pub first_seen_at : ℕ
  pub last_seen_at : ℕ

-- HashBlockMembersEntity, less the times of the row.
pub record Member : Type 0 where
  pub id : ℕ
  pub block_id : ℕ
  pub character_guid : Text
  pub hash_a : Option Text
  pub hash_b : Option Text
  pub is_confirmed : Bool
  pub joined_at : ℕ

-- HashBlockLogsEntity
pub record Log : Type 0 where
  pub block_id : Option ℕ
  pub character_guid : Option Text
  pub hash_value : Option Text
  pub hash_a : Option Text
  pub hash_b : Option Text
  pub action : HashAction
  pub original : Option Text
  pub updated : Option Text
  pub members_count : Option ℕ
  pub scanned_at : ℕ

-- The tables; `next_id` is the next id that the database generates.
pub record Tables : Type 0 where
  pub characters : List Character
  pub blocks : List Block
  pub members : List Member
  pub logs : List Log
  pub next_id : ℕ

-- IMembershipWithContext
pub record Membership : Type 0 where
  pub member : Member
  pub block_hash_value : Text
  pub block_is_collision : Bool

unfoldable pub first_of : {A : Type 0} → (A → Bool) → List A → Option A
first_of p [] = none
first_of p (x ∷ xs) = if p x then some x else first_of p xs

-- `{ where: { blockId } }`
abbrev pub of_block : ℕ → List Member → List Member
of_block i = keep (λ m. m.block_id == i)

unfoldable pub update_members : ℕ → (Member → Member) → List Member → List Member
update_members id f = map (λ m. if m.id == id then f m else m)

unfoldable pub update_blocks : ℕ → (Block → Block) → List Block → List Block
update_blocks id f = map (λ b. if b.id == id then f b else b)

unfoldable pub delete_members : ℕ → List Member → List Member
delete_members id = keep (λ m. not (m.id == id))

-- The save of a new member, with an id of its own, or a breach of the unique guids.
unfoldable pub save_member : Member → Tables → Option Tables
save_member m t =
    if any (λ n. same_text n.character_guid m.character_guid) t.members
    then none
    else some (record t {
      members = t.members ++ record m { id = t.next_id } ∷ [];
      next_id = suc t.next_id;
    })

unfoldable pub save_members : List Member → Tables → Option Tables
save_members [] t = some t
save_members (m ∷ ms) t = elim (save_member m t) [ none ↦ none | some t' ↦ save_members ms t' ]

-- The save of a new block, or a breach of the unique hash values.
unfoldable pub save_block : Block → Tables → Option Tables
save_block b t =
    if any (λ c. same_text c.hash_value b.hash_value) t.blocks
    then none
    else some (record t {
      blocks = t.blocks ++ record b { id = t.next_id } ∷ [];
      next_id = suc t.next_id;
    })

unfoldable pub insert_log : Log → Tables → Tables
insert_log l t = record t { logs = t.logs ++ l ∷ [] }

unfoldable pub find_accurate_block_by_hash_value : Tables → Text → Option Block
find_accurate_block_by_hash_value t h =
    first_of (λ b. same_text b.hash_value h && not b.is_collision) t.blocks

-- `map.get(h) ?? 0`, and `map.set`
unfoldable pub frequency : Text → List (Text × ℕ) → ℕ
frequency h [] = 0
frequency h ((k, n) ∷ fs) = if same_text k h then n else frequency h fs

unfoldable pub set_frequency : Text → ℕ → List (Text × ℕ) → List (Text × ℕ)
set_frequency h n [] = (h, n) ∷ []
set_frequency h n ((k, m) ∷ fs) =
    if same_text k h then (k, n) ∷ fs else (k, m) ∷ set_frequency h n fs

unfoldable pub count_hash : Option Text → List (Text × ℕ) → List (Text × ℕ)
count_hash none fs = fs
count_hash (some h) fs = set_frequency h (frequency h fs + 1) fs

unfoldable pub hash_a_frequencies : List (Text × ℕ) → List Member → List (Text × ℕ)
hash_a_frequencies fs [] = fs
hash_a_frequencies fs (m ∷ ms) = hash_a_frequencies (count_hash (truthy_text m.hash_a) fs) ms

unfoldable pub is_shared : List (Text × ℕ) → Member → Bool
is_shared fs m = elim (truthy_text m.hash_a) [ none ↦ false | some h ↦ ltb 1 (frequency h fs) ]

-- One update of a member after the other.
unfoldable pub confirm_each : (Member → Bool) → List Member → List Member → List Member
confirm_each confirmed [] ms = ms
confirm_each confirmed (u ∷ us) ms =
    confirm_each confirmed us
      (update_members u.id (λ m. record m { is_confirmed = confirmed u }) ms)

unfoldable pub recompute_block_state : ℕ → ℕ → Tables → Tables
recompute_block_state block_id scanned_at t =
    let ms = of_block block_id t.members in
    let confirmed = is_shared (hash_a_frequencies [] ms) in
    record t {
      members = confirm_each confirmed ms t.members;
      blocks =
          update_blocks block_id
            (λ b. record b {
              characters_count = length ms;
              confirmed_count = length (keep confirmed ms);
              is_collision = ltb max_characters_per_account (length ms);
              last_seen_at = scanned_at;
            })
            t.blocks;
    }
