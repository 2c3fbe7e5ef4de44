-- ===== src/Store.antt =====
-- server/internal/store: the tables, and the statements that the repositories run on them.
-- A statement is one interaction with the database, and any interaction may fail. Environment
-- values (time, randomness, failures) are read by the number of the interaction, so that every
-- theorem holds for every clock, every random source and every pattern of database failures.
pub mod Table
pub mod Domain
pub mod Exec
pub mod Keeps
pub mod Timestamp
pub mod Grants
pub mod Codes
pub mod Nonces
pub mod Activations
pub mod Tokens
pub mod Sessions
pub mod Keys
pub mod Jobs
pub mod Admins
pub mod Order
pub mod Clients
pub mod Channels
pub mod Audit
pub mod Attestors
pub mod Snapshots
pub mod Inversion
