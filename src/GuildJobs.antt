-- ===== src/GuildJobs.antt =====
-- One job of the guild worker as a whole: apps/osint/src/workers/guilds.worker.ts, with the lookup of
-- apps/osint/src/services/guild.service.ts, the summary of
-- apps/osint/src/services/guild-summary.service.ts and the logs of
-- apps/osint/src/services/guild-log.service.ts. Fields that are only copied, the feed and the texts
-- that are logged are left out. lodash's kebabCase, the queries and the failing writes are parameters.
pub mod Lookup
pub mod Replies
pub mod Job
pub mod Summary
pub mod Logs
pub mod Examples
