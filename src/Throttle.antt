-- ===== src/Throttle.antt =====
-- internal/throttle/throttle_scaler.go: the scaler's record, its monitor tick, and the semaphore
-- operations of the workers, each run alone. `Throttle/Interleaving` has their atomic steps.
-- Instants are native numbers, the zero time is `none`; counts and tokens are unbounded; a
-- duration is an integer, so that `now.Sub` may be negative.
mod Defs
pub mod Limits
pub mod Signals
pub mod Recovery
pub mod Tokens
pub mod Interleaving
mod Tests
pub use Defs.*
