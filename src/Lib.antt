-- ===== src/Lib.antt =====
-- Verification of the core of CMNW (a service that indexes characters, guilds and auctions).
--
-- The program's workers fetch data from the Battle.net API with a pool of API keys, compare it with
-- the rows of a PostgreSQL database, write the differences and a log of them, and keep in each row
-- a status string that says which requests succeeded. What is modelled, by file:
--
-- - Status: the status strings of characters and guilds
--   (libs/resources/src/utils/character-status.utils.ts with the tables of
--   libs/resources/src/constants/status.constants.ts). One set of definitions over a table of
--   endpoints is instantiated for both; Status/Guild and Status/Character hold the exported
--   functions by their names.
-- - Breaker: the class CircuitBreaker (libs/resources/src/utils/circuit-breaker.util.ts). A method
--   is a function on the record of its fields; the clock is an argument.
-- - Keys: the pool of keys of libs/battle-net/src/battle-net.service.ts: selection
--   (getAvailableKey, getAllKeys), cooldowns and the recording of results. Keys/Query has the loop
--   of executeQuery and Keys/Query/Initialize the one of initialize. The repository is a store
--   with the laws that the service relies on.
-- - Roster: apps/osint/src/services/guild-member.service.ts. Each process* method gives the commands
--   that it issues; Roster/Table says what they do to a table of members, and which rows there
--   should be afterwards. The set functions of lodash are parameters with their documented
--   membership.
-- - Guilds: apps/osint/src/services/guild-master.service.ts, the error path of
--   apps/osint/src/services/guild-roster.service.ts, and how apps/osint/src/workers/guilds.worker.ts
--   calls Roster and joins the status strings of its steps with the functions of Status.
--   Guilds/Saving, Guilds/Fetch and Guilds/Fetching have the fetching of a roster, with
--   characterAsGuildMember of libs/resources/src/dao/character.dao.ts; the members are done with in any order, on
--   a table of characters, each alone with its row; the lookups of realms and the failures are a
--   record of functions.
-- - Lifecycle: apps/osint/src/services/character-lifecycle.service.ts, with the queries of the
--   database as functions.
-- - Concurrency: libs/resources/src/utils/concurrency.util.ts. The variables that the workers share
--   are a state, and the settling of a task is a step; a run is any sequence of steps, so every
--   order in which tasks settle is covered.
-- - Cache: libs/resources/src/utils/redis-cache.util.ts. The Redis client and JSON are parameters;
--   every command of the client may throw.
-- - Pricing: apps/api/src/dma/price-binning.ts, on exact numbers of thousandths.
-- - HashBlocks: apps/osint/src/services/hash-block.service.ts. The four tables are a state, and a
--   transaction gives the new state or throws. The unique columns refuse a second row.
-- - Evaluation: apps/market/src/services/evaluation.service.ts. Numbers with their operations are a
--   parameter, whose comparison has the laws of numbers other than NaN; the queries on a realm are
--   functions, each of which may throw. Evaluation/Prices has the prices of the market,
--   Evaluation/Costs the costs of recipes, Evaluation/Methods the ways to price an item and their
--   ranking, Evaluation/Item the evaluation of one item, and Evaluation/Crafts the search for
--   profitable crafts and the job that fills the table of evaluations.
-- - Characters: apps/osint/src/workers/characters.worker.ts, with the requests of
--   apps/osint/src/services/character.service.ts and the hashes of
--   apps/osint/src/services/character-collection.service.ts. A job is a function of the replies and
--   of the rows that it reads; fields that are only copied, the texts that are logged and the feed
--   are left out, and so is the indexing of pets, mounts and professions. Characters/Requests has
--   the requests, Characters/Data what a job makes of them, and Characters/Job the job.
-- - GuildJobs: a job of apps/osint/src/workers/guilds.worker.ts as a whole, with
--   apps/osint/src/services/guild.service.ts, apps/osint/src/services/guild-summary.service.ts and
--   apps/osint/src/services/guild-log.service.ts. It composes the lookup, the summary, Roster, the
--   logs and Guilds; lodash's kebabCase is a parameter. A number that a new guild lacks is nought
--   to the roster. GuildJobs/Lookup has the lookup, GuildJobs/Replies the summary and the logs, and
--   GuildJobs/Job the job.
-- - Valuations: the stages of apps/market/src/services/xva.service.ts that give items their classes
--   and tags (buildAssetClasses). A run is the state that is left, done or thrown. Valuations/Items
--   has the helpers on items, Valuations/Store the tables and the data of the keys,
--   Valuations/Tags the tags, and Valuations/Stages the stages. The commands of Redis are taken to
--   succeed, and keys do not expire; the updates that the database refuses are a parameter, and so
--   are the hash, JSON.parse and toLowerCase.
-- - Recipes: the tables of recipes and spells of the same service. Recipes/Pricings has libPricing
--   and indexPricing, whose methods and responses are arguments, and Recipes/Sheets the building of
--   three tables from files, whose cells are a parameter with JavaScript's tests on them. The saves that
--   throw, their order, and the rounding of an id to the column's single precision are parameters.
-- - Prelude: texts as lists of code units, lists, maps and sorting.
--
-- Bounds and fuel. Numbers are natural numbers; a difference that may be negative in the source is
-- compared with the summand on the other side. executeQuery makes at most four requests, so four
-- rounds of fuel are enough; initialize has its ten attempts; the search of assignPriceBucket has
-- as many rounds as there are edges, and the loop of buildLinearBins as many as the highest price
-- and a step, and the batches of xva.service.ts as many as the elements, which the theorems on them
-- show to suffice. Commands of the database that fail are
-- marked by a function, and queries that throw by a missing result.
--
-- Not modelled: requests and their payloads, queues, SQL aggregates, controllers, the rounding of
-- floating-point numbers and the bins that are computed with logarithms, the tables of
-- the professions, and the stages of apps/valuations/src/valuations.service.ts. The members of one
-- phase of a roster update are taken one after the other, in the order of their ids.
pub mod Prelude
pub mod Status
pub mod Breaker
pub mod Keys
pub mod Roster
pub mod Guilds
pub mod Concurrency
pub mod Pricing
pub mod Lifecycle
pub mod Cache
pub mod HashBlocks
pub mod Evaluation
pub mod Characters
pub mod GuildJobs
pub mod Valuations
pub mod Recipes
