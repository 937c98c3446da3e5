-- ===== src/Lib.antt =====
-- A verification library of fediway, the feed server that stands before a Mastodon instance.
--
-- The program ranks candidates from several sources in a pipeline (collect, filter, score, sample),
-- serves the ranking page by page to Mastodon clients, and stands between a client and the Mastodon
-- instance where a post has an identifier of its own (a snowflake). The parts and their files:
--
-- - Feed (crates/feed): `Candidate`, the selection loop with `TopK` (Sampler) and the group quotas
--   (Quota), `Dedup` (Filter), `Diversity` (Scorer), the builder and `execute` (Pipeline), and the
--   page cursor (Cursor). Traits are records of functions; `execute` runs the filters and the scorers
--   in their order over what the sources yield, and the sampler selects from the rest.
-- - Common: the post (crates/common/src/types.rs) and the paths of media files
--   (crates/common/src/paperclip.rs).
-- - Format and Entities (crates/mastodon): the formatter of local statuses (Format.Local: `format_local`,
--   which collects spans of links, mentions and hashtags by Matches and Links, chooses and assembles
--   them by Spans, and escapes the rest by Escape), `format_remote` (Format.Remote), and Mastodon's
--   entities (Entities.Types) with how they are made of a post (FromPost), a link or a tag (Cards).
-- - Sources (crates/sources): the items of a page and the filter by the user's policy
--   (crates/sources/src/mastodon), and the CommonFeed providers (CommonFeed: the wire types, the
--   conversion of results into posts, the request, and the sources of posts, links and tags).
-- - State (crates/state): the cache with its circuit breaker (Cache), on a record `Redis` of what the
--   server and the clock answer; `Store` is the interface that the server's code takes, and the laws
--   that it relies on; Policy makes a policy of the rows of the database; Detail builds statuses of the
--   rows (crates/state/src/statuses/detail) and fetches them with what they quote.
-- - Server (apps/server): the generic engine of pages (Engine), the seen set (Seen), the home feed
--   (Home: how its pipeline is built, Home.Serve: a request), the pages of statuses by their
--   identifiers (Keyset), the items of a page as statuses (Statuses), the link and the tag timeline
--   (Timelines), the trend feeds (Trends), the account of a request (Auth) and
--   its languages (Language), the resolver of snowflakes (Resolver for one caller,
--   Resolver.Flights for the callers that share a search) and the Mastodon API (Api: errors,
--   translation of identifiers in JSON, the actions on a status, and the fallback middleware).
-- - Orbit (workers/orbit): how a batch of engagements moves the users' vectors (Vector).
-- - Prelude: what the others share. Tests: the models run on concrete data, and the theorems applied.
--
-- Conventions. Stateful code passes its state on; a function that may panic, and one that may fail
-- without a reason, gives an `Option`, one that fails with a reason a `Result`, and one that may do
-- both an `Outcome`. Numbers are natural numbers, a sum or a difference that may overflow is taken
-- modulo the number of values of its type, as in a release build. Floats are an abstract type with the
-- operations that the code uses, and where a theorem compares scores it assumes of them what IEEE 754
-- says. A `HashMap` is an association list and a `HashSet` the list of what was inserted. A future is
-- what it computes; where callers interleave (Resolver.Flights) each step under a lock, and a caller
-- whose request is dropped, is a step of a relation.
--
-- Fuel. Decimal texts are printed on fuel n + 1 for the number n, since the quotient by ten is smaller;
-- JSON is walked on fuel one above the height of the value, since each call goes into a member of an
-- object; a client of the engine is followed for one page more than there are items, since each page
-- that has a next one shows at least one; a text is searched for a needle in one round more than it has
-- characters, since each round passes the characters of a match. All other recursion is structural.
--
-- Not modelled: SQL, the network, metrics and logs, serialisation by serde, the polling and embedding of
-- workers/orbit, configuration, the command line, and the routing tables. Where the
-- modelled code uses a library or a service it is a parameter: the rows of a query, the answer of a
-- request, a codec of serde, the matches of a regular expression, the sanitizer of ammonia
-- (crates/mastodon/src/sanitize.rs is a configuration of it), the reading of
-- floats, lower case, and which characters Unicode takes for letters and digits.
pub mod Prelude
pub mod Common
pub mod Format
pub mod Entities
pub mod Feed
pub mod Sources
pub mod State
pub mod Server
pub mod Orbit
pub mod Tests
