-- ===== src/Lib.antt =====
-- Quordon: a gateway that lets named principals run structured, policy-checked queries on MySQL.
--
-- A request names a profile and a datasource and carries a query as data. It is validated
-- (internal/queryspec), authorized by the policy engine (internal/policy) under the limits of the
-- configuration (internal/domain, internal/config), takes a slot of capacity
-- (internal/queryservice), is compiled to SQL and run by the adapter (internal/adapters/mysql8),
-- which cuts the rows off at the limits of the result.
--
-- Domain: internal/domain/domain.go, the operations and `Limits` with `Min`.
-- Queryspec: internal/queryspec/types.go. `Validate` is `validate`, one function for each of its
--   stages; `Revalidate`, `ValidateSimpleSelect`, `validateFilter`, `BindValue`, `parseJSONInteger`
--   keep their names. A decoded JSON value is the token that it spells.
-- Policy: internal/policy/policy.go. A snapshot is a record, with its address as a number; the
--   tokens it mints are records. A Go map is a list of entries.
-- Sql: `compile`, `compileSelect`, `compileFilter` of internal/adapters/mysql8/mysql8.go and
--   source_text.go, as functions to the text and its arguments.
-- Encoding: the counting of JSON bytes, in internal/queryservice/operations.go and in
--   internal/adapters/mysql8/mysql8.go, and `collectSelectRows` with what `Select` makes of it. What
--   the driver yields is a list. Encoding/Json writes the JSON that is counted, as `encoding/json`
--   does, and standard base64, with no regard to the counting.
-- Capacity: `acquireCapacity` of internal/queryservice/service.go; a channel that serves as a gate
--   is its capacity and the number of tokens in it.
-- Database: `Manager` of internal/database/database.go, with the datasources as a list and their
--   adapters as functions of the moment of the call.
-- Service: the handlers `Explain` of internal/queryservice/service.go and `Select`, `ListObjects` and
--   `DescribeObject` of operations.go, and `Capabilities`, as state passing over a `World`: the
--   gates, the published discoveries, and the trace of the events written, the semantics asked for
--   and the calls with a token. A request runs alone: between its steps no other request changes the world.
-- Plans: `indexMergeUsesIndex` of internal/adapters/mysql8/plan_indexes.go, the scan of the merge
--   expressions of a plan; the inner loop over an identity is part of the one scan.
-- Configuration: `validateLimits` and `validatePatterns` of internal/config/config.go. Limits are not
--   negative; an error is its kind with the names and numbers of its message.
-- Tests: a concrete policy, query and result, at which the theorems are applied.
-- Prelude: shared tests, lists, error results and byte texts.
--
-- Identifiers and patterns are byte texts, whose letters are folded as ASCII: the patterns of
-- identifiers and of the configuration admit no other letters. The fold of index names, which may
-- have others, is a parameter. Numbers are natural numbers where the configuration holds them at 0
-- or more; int64 values are integers with their bounds written out. Every loop is structural
-- recursion, but for the printing of a number in decimal, whose fuel is one more than the number:
-- each step divides it by ten. Go's decoding of UTF-8, its parsing of RFC 3339, the calls of base64,
-- the driver's rows, the classification of its errors, the adapters' answers, the audit sink's and
-- the hashes of the service are parameters. With an error an adapter gives no result: the one of the
-- repository gives the empty result then.
--
-- Not modelled: aggregate and keyset queries with their configured shapes, the decoding of
-- requests, table statistics, the loading of the configuration and the other checks of it, the
-- HTTP handlers, the writing of the audit log, authentication and start-up, and the vendored
-- libraries.
pub mod Prelude
pub mod Domain
pub mod Queryspec
pub mod Policy
pub mod Encoding
pub mod Database
pub mod Service
pub mod Plans
pub mod Configuration
pub mod Sql
pub mod Capacity
pub mod Tests
