-- ===== src/Lib.antt =====
-- ark_esp_backend: a model of backend_python, the HTTP service that keeps accounts, sharing
-- groups and keys in Postgres and mirrors what the relay (backend_go) needs into Redis, and of
-- its consumers, which store what the relay reports of the game.
--
-- A request comes in through a bearer token (Auth), a service runs in a database session, and
-- the repositories read and write rows. The services of groups and keys then write the Redis
-- keys that the relay reads. The model runs one request at a time, except where a module says
-- otherwise.
--
-- Prelude: tests on numbers, tables as lists of rows (Table, Unique, Upsert, Apart), integers
--   (Int), doubles as an interface (Double) and calls that may raise (Results): `Action S E A`
--   takes the state to a value or an exception, and to the state that is left; what was
--   committed before a raise stays.
-- Models: the rows of backend_python/src/models, the database and the Redis keys; Observed is
--   what is observed of the game. Times are microseconds since the epoch, ids are numbers.
-- Sharing: backend_python/src/services/sharing_service.py (Service),
--   repositories/sharing_repo.py (Repo), core/group_cache.py (Cache). View reads the tables and
--   Redis as a relation of accounts and groups; Mirror says that both agree, Validity that the
--   tables are consistent, Requests is the service under any sequence of calls, Access is who
--   may do what, Invites is the limit on invitations, Invites/Race two calls of `join_group`
--   that overlap.
-- Secrets: core/passwords.py and core/tokens.py.
-- Auth: core/account_auth.py and core/admin_auth.py. Login is the login by password, Lockout its
--   limit on guesses, Bearer the reading of tokens, Claims what an accepted token says.
-- Accounts: services/account_service.py (Register), activation_key_service.py (Activation) and
--   password_reset_service.py (Reset), on repositories/account_repo.py, activation_key_repo.py
--   and password_reset_repo.py (Repo). Activation/Records and Activation/Audit are about the
--   record of a redemption.
-- ApiKeys: services/api_key_service.py (Service), with repositories/api_key_repo.py and
--   core/api_key_cache.py (Cache). Mirror is the agreement of Redis with the table, Isolation
--   who may see and use a key, Repeat revoking twice.
-- Routes: routers/v1 over these services, by the file of the router: Groups, Accounts (with
--   admin_accounts.py), ActivationKeys, ApiKeys, Logins (account_auth.py and admin_auth.py, with
--   the making of tokens). Http is HTTPException and the dependencies that find the caller;
--   Access and Sessions are about responses and tokens.
-- Pagination: core/pagination.py and the listing by pages of the services, for any rows. Order
--   is the order of the rows, Walk the way from the first page to the last, Bar the reading of a
--   cursor's text. Routes/Listings has the two listings.
-- Stream: core/redis_stream.py. Consumer is `run_consumer` with `_handle_one` as a machine that
--   stops at each `await`, where Redis answers or fails and the process may die, on a stream
--   that the producer (backend_go/internal/streamproducer/streamproducer.go) trims; Delivery
--   follows a message, Progress is about what a consumer that is started again can still do.
-- Topology: repositories/server_repo.py (Servers, Tribes) and ark_lookups_repo.py (Lookups) in a
--   database session (Session) whose uncommitted writes a rollback or an exception takes back.
--   Text is Python's reading of addresses and numbers, Clash the renaming of a tribe to a name
--   that is taken; Numbers and Unshared are about the number of a tribe.
-- Sightings: what the relay sends through the streams. Fields reads the fields of a message;
--   Players, Structures and Dinos are services/player_ingest_service.py,
--   structure_sighting_service.py and dino_sighting_service.py with player_repo.py,
--   ark_structure_repo.py and tamed_dino_repo.py. Structures/Store is the map that the table of
--   structures stands for, Steps and Refinement relate the two, and Poison is about a message
--   whose commit is refused.
-- Density: services/dino_density_service.py (Rooms, Counting, Sampling) and
--   repositories/dino_density_repo.py (Cells). Places is where an entity stands, said of its
--   texts alone, Samples and Peaks are about many samples of a cell, Keys about the key of a
--   room.
-- Snapshots: services/structure_store.py (Store), redis_keys.py (Keys) and structure_flush.py
--   with repositories/structure_repo.py (Flush). Hashes are the Redis hashes, Overlap a snapshot
--   that comes in during a flush.
--
-- Fresh ids, the time, salts and generated tokens are arguments of the operations. Parameters:
-- argon2 and HMAC (`Hashing`, with `IsSound` for what argon2 documents), PyJWT and uuid.UUID
-- (`Tokens`, `Signing`, with `Matches` for a pair of them), SHA-256, base64 and ISO dates
-- (`Codec`, with `IsCodec`), pydantic's reading of a text and Postgres' reading of an address
-- (`Reading`), what Redis answers to the density sample (`Redis`), and doubles (`Double`, with
-- `ComparesNumbers` for what IEEE 754 says of their order). PyJWT writes the expiry of a token
-- in whole seconds and refuses one that is issued in the future. An insert that a unique index
-- or a foreign key of the table refuses is an IntegrityError.
--
-- Every loop of the program goes over a list, but for that of `run_consumer`, which is a
-- machine. Only `walk`, a client that follows the pages, runs on fuel: each page that is not the
-- last has a row, so it needs one page more than there are rows.
--
-- Not modelled: connections and their failures, logging, the timing of dummy hashes, and the
-- ranges of the columns of Postgres.
pub mod Prelude
pub mod Models
pub mod Sharing
pub mod Secrets
pub mod Auth
pub mod Accounts
pub mod ApiKeys
pub mod Routes
pub mod Pagination
pub mod Stream
pub mod Topology
pub mod Sightings
pub mod Density
pub mod Snapshots
