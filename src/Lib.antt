-- ===== src/Lib.antt =====
-- A verification library for the issuer server of this repository (server/internal): it gives
-- wallets that hold stake in a pool signed access tokens, keeps the refresh grants, codes and nonces
-- behind them, and keeps channel subscriptions in step with their membership.
--
-- The parts and the files that model them:
--   Store: the tables and the statements on them. Store.Domain has the rows of server/internal/domain,
--     Store.Exec the transactions of server/internal/store/store.go, Store.Timestamp the stored form
--     of times (sqlhelpers.go), and Store.Grants, Codes, Nonces, Activations, Tokens, Sessions, Keys,
--     Jobs, Admins, Clients, Channels, Attestors, Audit and Snapshots the repositories repo_*.go, one
--     function per method; Store.Order has the orders of their listings, Store.Keeps and
--     Store.Inversion rules for proofs.
--   WalletAuth: server/internal/core/walletauth, nonces that a wallet signs.
--   Membership, Attestor, Tier, Chain: the pure rules. server/internal/core/membership/state.go derives
--     a state from a snapshot, core/attestor turns snapshots into facts and claims and evaluates a set,
--     core/tier evaluates the rule language on the facts, and utils/chain has epochs, pool ids,
--     stake addresses and the reading of reward addresses (Chain.RewardAddress, rewardaddr.go).
--   Membership.Cache and Membership.Source: server/internal/core/membership/cachedsource.go, the chain
--     source behind a table of snapshots.
--   Keys: server/internal/core/keys, the life of the signing keys.
--   Oauth: server/internal/core/oauth. Oauth has Authorize and CreateActivation (oauth.go,
--     activation.go), Oauth.Request and Oauth.Token the token endpoint (token.go), Oauth.Live introspection and
--     revocation (introspect.go).
--   Reconciliation, Push, Telegram: the workers of server/internal/worker.
--   Admin: server/internal/core/admin, administrators and their sessions.
--   Telegram.Settings: the stored form of a bot's token (worker/telegram/channelconfig.go).
--   Http: server/internal/httpapi. Http.Idempotency and Http.RateLimit are its middleware; Http.Flow has
--     handlers as actions that go on or stop with a reply (respond); Http.AdminLogin has the session,
--     role and step-up guards (handlers_admin.go), Http.Members, ClientAdmin and ChannelAdmin the
--     handlers of handlers_admin_resources.go, Http.AttestorAdmin those of handlers_admin_attestors.go,
--     Http.Routes the routes of the administration plane with their roles; Http.Public and
--     Http.OauthPlane the public handlers. Http.Holds and Http.Triples are rules for proofs.
--   Base and Go are shared: numbers, lists and texts, and the parts of Go's library that the code uses.
--   Tests has data and concrete runs.
-- The services call each other as in the code: Oauth uses WalletAuth, Attestor, Tier, Keys and the
-- store; the reconciler and the bot use the attestation of Oauth. The handlers of Http call Admin, Oauth,
-- WalletAuth, Keys and the repositories.
--
-- State and errors. A service's state is the database: a record of tables, each a list of rows in
-- the order of insertion. An operation is a function of a world, the database and the number of the
-- interactions so far, to a result and the world after it. Every read of the clock, every random
-- text and every statement is an interaction; the environment says which of them fail. So a theorem
-- without a hypothesis on faults holds whichever statements fail. A transaction restores the tables
-- when it fails; statements outside a transaction are kept, as in the code. One operation runs at a
-- time: statements of concurrent requests are not interleaved.
--
-- Parameters. What lies outside the repository is an argument: the clock, failures and randomness
-- (Env), and hashing, signatures, JWT, CBOR and COSE decoding, JSON decoding, sealing of keys and the
-- chain's answers (Outside); for the push worker the messenger, rate limiter and context (Channel); for
-- the middleware the handler behind it and the token bucket. A request body is what it decodes to, `none`
-- where it does not decode.
--
-- Bounds and fuel. Times are nanoseconds since 1970 as natural numbers; the epochs of Chain.Epoch and
-- Attestor.member_since wrap at 64 bits as in the code. The loop of RevokeChain has no bound in the
-- code; the model gives it fuel 2 ^ n for a table of n rows, which is enough for rotation chains that
-- form a forest. Printing and regrouping of digits have fuel that exceeds the number of digits.
--
-- Not modelled: the decoding and encoding of JSON and forms, the matching of paths, and the pages; the
-- merging of calls that run at the same time; configuration and start-up, the Koios client, the
-- Telegram transport, migrations, and the web front ends. They are input and output around these
-- rules.
pub mod Base
pub mod Go
pub mod Chain
pub mod Tier
pub mod Membership
pub mod Attestor
pub mod Store
pub mod Outside
pub mod WalletAuth
pub mod Keys
pub mod Oauth
pub mod Reconciliation
pub mod Push
pub mod Telegram
pub mod Admin
pub mod Http
pub mod Tests
