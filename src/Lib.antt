-- ===== src/Lib.antt =====
-- The LibreLock server: a password manager's API, which stores what its clients encrypt.
--
-- An instance is one SQLite database, a provider that holds the running mode (personal or
-- organization), rate limiters, slots for password hashing, and HTTP handlers. Startup reads the
-- configuration, opens the database file, migrates it, resolves the mode, seeds the rows that the
-- mode needs and sweeps expired sessions. A request then passes the headers' middleware, the rate
-- limiter where its route has one, the session check, which hands the handler the caller's account,
-- and in organization mode the guard of the administrators' routes. Handlers read and write the
-- tables through gorm. Server composes these parts as main.go does, on the handlers' models.
--
-- Files and what they model:
--   Models: the package models, as records (Accounts, Records, OrgTables), and the statements on
--     them with what SQLite enforces of the tags (Database); First has the lemmas on searches
--   Crypto: crypto/token.go and crypto/kdf.go (Token), crypto/password.go (Password) and
--     crypto/limit.go (Slots), with hex and base64 as the standard library writes them (Hex, Base64
--     and, with padding, Base64/Padded)
--   Env, Http: what a request finds outside the database, and the replies
--   Middleware/RateLimit: middleware/ratelimit.go
--   Middleware/Auth: middleware/auth.go, middleware/admin.go and middleware/membership.go
--   AppMode: appmode/appmode.go
--   Configuration: config/config.go
--   Startup: db/db.go, db/migrations.go, db/sessions.go (Disk, Backups, Connect, Migrations), the
--     seeds, the mode and the order of main.go (Seeds, Boot); the other files have the proofs
--   Server: the routes of main.go with the middleware of each (Requests, State, Handle, Serve),
--     middleware/cors.go and middleware/security.go (Headers)
--   Handlers/Helpers, Handlers/Admins, Handlers/Searches: handlers/helpers.go and `recordAudit` of
--     handlers/audit.go, with the lemmas on them; Handlers/Errors: the messages for a request that
--     does not bind; Handlers/Audit: the list of the audit log
--   Handlers/Organization: handlers/organization.go, the public view (Public), settings (Update),
--     logos (DataUrl, Logo), the policy (Policy), and their routes (Requests)
--   Handlers/Auth: handlers/auth.go (Requests, Login, Register)
--   Handlers/Settings: handlers/settings.go (Account, Instance)
--   Handlers/OrgUsers: handlers/orgusers.go
--   Handlers/Invite: handlers/invite.go
--   Handlers/Shared: handlers/orgvault.go (OrgVault), handlers/orgcategory.go (OrgCategory), and
--     their routes of main.go (Requests)
--   Handlers/OrgMembership: handlers/orgmembership.go
--   Handlers/Personal: handlers/vault.go (Vault), handlers/category.go (Category),
--     handlers/session.go (Session), and their routes of main.go (Requests)
--   Common: tests on numbers, rows of a table, texts and numerals, sorts and slices of lists, for
--     all; Samples: a small instance, on which the tests run
--
-- Conventions. A handler is a function of the environment, the caller, the request and the
-- database, and returns its reply and the database after it. A method's name is the source's in
-- snake case. Statements of a handler are numbered in the order of the code, and `fault i` says
-- whether statement number `i` fails; a failed statement writes nothing. Where the code does not
-- look at an error, the model goes on as the code does. A search by `First` takes the matching row
-- with the least primary key. A text is a list of code points, or of bytes where a file says so;
-- an id is a number, and a time a count of nanoseconds. A request that is not JSON of the right
-- shape is `none`; binding tags are Boolean tests. A table that only organization mode creates is
-- optional.
--
-- Parameters: SHA-256, HMAC, argon2, the random source, the clock and the UUIDs are fields of the
-- environment or arguments. No definition but the printing of a number needs fuel: loops are
-- structural recursion, and `issue_code` runs on the bytes that the random source gives.
--
-- Bounds. The limiter's tokens are exact numbers in place of floats: a rate is the time in which
-- one token comes back. Durations stay below 2^63 nanoseconds for every TTL and rate that the
-- configuration can hold in practice, so they do not wrap; the numbers that a stored hash records
-- are scanned with their widths of 32 and 8 bits, and strconv.Atoi refuses what int64 cannot
-- hold. A number is printed with 20 digits of fuel, which is enough for 64 bits.
--
-- Not modelled: gin's matching of paths; the ticker that repeats the sweep of sessions; the string
-- of the version, which the linker sets and which is an argument here; the detail text of audit
-- events, which no code reads; the cookie's name, path and SameSite; the columns of times that
-- nothing reads; how long hashing takes, which the dummy hash of an unknown account evens out.
pub mod Common
pub mod Models
pub mod Crypto
pub mod Env
pub mod Http
pub mod AppMode
pub mod Handlers
pub mod Samples
pub mod Startup
pub mod Server
pub mod Configuration
pub mod Middleware
