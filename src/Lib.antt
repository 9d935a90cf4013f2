-- ===== src/Lib.antt =====
-- Verification of Arkfile, a server for encrypted files with metered storage.
--
-- The program's parts that are modelled, and their files:
--
-- FloodGuard: handlers/flood_guard.go, the in-memory count of unauthorized responses by entity.
-- `hit` is `RecordUnauthorizedHit` on one tracker, `is_blocked`, `cleanup` and `middleware` are the
-- operations of their names. Every operation holds the service's mutex, so each is one step.
-- Billing: billing/ and the statements of models/payments.go and models/credits.go that it runs.
-- State has the tables, the errors and the transactions; Balance the steps that the three writers
-- of the ledger share; Gift, Payments, Meter and Sweep the operations of billing/gift.go,
-- billing/payments.go with billing/reconcile.go, billing/meter.go and billing/sweep.go. The meter
-- adds to `storage_usage_accumulator`, which the sweep drains into `user_credits` and
-- `credit_transactions`; gifts and payments write the same two tables. Rates is billing/rates.go, the
-- price from which the meter's rate comes, and Scheduler the boundaries and the loop of
-- billing/scheduler.go. In Payments, the other requests that run between the check and the
-- transaction of `SettlePaymentInvoice` are a function of the tables. The other modules have the
-- proofs.
-- Money: `ParseCreditsFromUSD` and `FormatCreditsUSD` of models/credits.go, on lists of code points.
-- MfaLockout: auth/mfa_lockout.go, and the path of a wrong code through `ValidateTOTPCode` of
-- auth/mfa_totp.go.
-- RefreshTokens: models/refresh_token.go, with the rotation of tokens in families.
-- RateLimit: handlers/rate_limiting.go, the penalties for failed share accesses and logins.
-- Aad: crypto/aad.go, the strings that bind a ciphertext to its context, on lists of bytes.
-- Uploads: handlers/uploads.go with handlers/streaming_hash.go. The state is the rows of sessions,
-- chunks, files, storage locations, provider statistics and users, the two hash states of a session
-- in memory, and a log of the calls to storage. Create, Cancel, Chunk, Complete and Delete are
-- `CreateUploadSession`, `CancelUpload` with `GetUploadStatus`, `UploadChunk`, `CompleteUpload` and
-- `DeleteFile`, each a step that goes through the checks in the code's order; Steps has their
-- histories. `UpdateStorageUsage` of models/user.go charges the user. The other modules are lemmas
-- and proofs.
-- Downloads: `DownloadFileChunk` of handlers/downloads.go, the chunk counts of handlers/uploads.go
-- and the padded size of utils/padding.go, on int64.
-- Shares: `DownloadShareChunk` of handlers/file_shares.go. The row that a request has read is an
-- argument apart from the state, so that the requests of a history interleave.
-- Storage: storage/registry.go, the fallback of reads and the copy between providers. Uploads and
-- Shares take the providers' answers as parameters.
-- Usernames: utils/username_validator.go, on lists of bytes.
-- Base: what the parts share: tests, lists, tables keyed by texts, and int64 arithmetic, in which
-- the wrap-around is written out (`wrap64`).
--
-- A time is a natural number, of nanoseconds in FloodGuard, Billing, MfaLockout and RateLimit and of
-- seconds in RefreshTokens. A difference of times that the code compares with a positive bound is
-- cut at 0, which leaves the comparison as it is.
--
-- Tables are values, a statement is a function of the tables, and an environment says which
-- statement fails. A transaction's changes are dropped unless it commits, and a statement of it that
-- fails leaves those before it in force: what the driver and the database do there, whose code is
-- not part of the repository. rqlite's way of returning
-- an integer through a float64, the parsing of stored times, the SHA-256 of tokens and the random
-- bytes are parameters. MfaLockout, RefreshTokens and RateLimit take a time that the database returns
-- as the time that was written.
--
-- Fuel is used in two places: the decimal digits of n are printed on fuel n + 1, which is enough since
-- each digit takes the number to at most a tenth of it, and the copy of n bytes runs on fuel n + 1,
-- which is enough since each part takes at least one byte.
--
-- Not modelled: HTTP, log output, the administration handlers, the S3 provider,
-- the OPAQUE, JWT and encryption code around third-party libraries, the command-line and web clients,
-- the sleep of the billing scheduler, the replication of uploads, the creation and
-- listing of shares, and the read-only listings of models/. A handler of Uploads is one step, so that
-- two requests for the same session do not interleave.
pub mod Base
pub mod FloodGuard
pub mod Billing
pub mod Money
pub mod MfaLockout
pub mod RefreshTokens
pub mod RateLimit
pub mod Aad
pub mod Downloads
pub mod Uploads
pub mod Shares
pub mod Storage
pub mod Usernames
