-- ===== src/Characters.antt =====
-- One job of the character worker: apps/osint/src/workers/characters.worker.ts, with the requests
-- of apps/osint/src/services/character.service.ts and the hashes of
-- apps/osint/src/services/character-collection.service.ts. A request is given by its reply, with the
-- fields that the mappings take from it, less those that are only copied, as the level and the
-- pictures. The hash of a text is a parameter, as are the queries and the failing writes.
pub mod Requests
pub mod Data
pub mod Job
pub mod Verdicts
pub mod Examples
