-- ===== src/Lib.antt =====
-- Models of the ydb-qdrant service: a Qdrant-compatible HTTP API over YDB, with a code indexer that is
-- driven by GitHub webhooks.
--
-- The parts, and where they are modelled (paths from the repository's root):
--   Prelude, Text, Json     shared: native numbers and lists, JavaScript strings as lists of UTF-16 code
--                           units, JSON values
--   Tenant                  src/utils/tenant.ts and src/services/CollectionService.shared.ts: the names
--                           under which the collections of a user are stored
--   Identity                src/utils/requestIdentity.ts: the user and the namespace of a request, by
--                           way of Tenant
--   Jobs                    the job types of src/code-indexer/types.ts
--   Queue                   InMemoryDeliveryStore and InMemoryIndexingQueue of src/code-indexer/queue.ts
--   Webhooks                src/code-indexer/webhooks.ts and webhookSignature.ts. Payload reads, Mapping
--                           is mapWebhookToJobs, Fallback is jobsForWebhook, Handler is the handler. It
--                           hands jobs to a queue and reserves deliveries in the store of Queue
--   Points.Paths            src/utils/pathPrefix.ts and prefixExpansion.ts
--   Points.Filter           parsePathSegmentsFilterToPaths of src/services/PointsService.ts and
--                           src/repositories/pointsRepo.storage/PathSegmentsFilter.ts
--   Points.Rows             src/compute/ComputeWorker.ts, src/utils/PayloadSign.ts and vectorBinary.ts, and
--                           the row functions of Upsert.ts, Search.ts and Retrieve.ts in
--                           src/repositories/pointsRepo.storage. Prepare writes rows, Verify reads them
--   Points.Tables           the points table and the lookup table under upsertPoints of Upsert.ts and
--                           deletePointsByPathSegmentsChunked of Delete.ts: Deletion is what the loop
--                           leaves, Upserts and Reached are about the tables after upserts, and Index
--                           relates a deletion to the filter of a search
--   Retry                   withRetry of src/utils/retry.ts
--   Access                  src/code-indexer/accessControl.ts and the session cookie of auth.ts
--   Quota                   src/code-indexer/quota.ts
--   Timeouts                src/middleware/upsertRequestTimeout.ts and upsertBodyPhase.ts: the deadlines of a
--                           request. Runs puts the middlewares together as src/server.ts does
--   Chunker                 src/code-indexer/chunker.ts. Paths has the path functions, Files the choice of
--                           files by patterns, kinds and sizes, Windows the chunks of lines, Sections the
--                           chunks of Markdown and of plain texts, Grammars the languages, Syntax the chunks
--                           of a syntax tree, Smart the choice among these and the fingerprints
--   Naming                  src/code-indexer/naming.ts: collections, point identifiers and branches
--   Indexer                 the pushes of src/code-indexer/repoIndexer.ts. Batches collects chunks for the
--                           embedding, Push applies the files of a push to the points and the manifest,
--                           over deletePath and upsertChunks of indexStore.ts. It asks Chunker for the
--                           chunks of a file and Naming for their identifiers
--
-- How code corresponds to definitions: a function keeps its name in snake case. Code that throws returns a
-- result or an option. State is passed and returned; the code between two awaits is one step, and
-- Queue.Runs has the sequences of steps. Node's crypto, JSON.parse and JSON.stringify, encodeURIComponent,
-- the numbers of a vector, the worker pool, the database, the other stores, the mapping of letter cases,
-- the UTF-8 coding of a buffer, the parsers of tree-sitter, the contents on GitHub and the embedding are
-- parameters, and a theorem names what it assumes of them. A call of a store that throws may have had its
-- effect. A log line is left out.
--
-- Loops: drain of Queue has one round for each waiting job, as each round takes one off; retry_from of Retry
-- has one unit of fuel for each permitted call, and with_retry is shown to need no more. delete_rounds of
-- Points.Tables has one for each lookup row and one more, as each round but the last deletes a row.
-- windows_from of Chunker.Windows has one unit of fuel for each line, as a window starts at least a line
-- after the one before it, and push_slices has one for each code unit of a line, as each slice takes one.
--
-- Not modelled: the YQL texts and the database driver, the routes and the servers, the durable stores, full
-- indexes of a repository with their concurrent reads and their status updates, the GitHub client, the
-- parser of the configuration and logging.
mod Prelude
pub mod Text
pub mod Tenant
pub mod Identity
pub mod Jobs
pub mod Queue
pub mod Json
pub mod Webhooks
pub mod Points
pub mod Retry
pub mod Access
pub mod Chunker
pub mod Naming
pub mod Indexer
pub mod Quota
pub mod Timeouts
