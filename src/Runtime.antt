-- ===== src/Runtime.antt =====
-- What the game takes from Go's runtime and standard library: float64 arithmetic, the clock and the
-- random source. None of it is code of the repository, so each is a parameter, with the documented
-- facts that proofs rely on as a record of laws. Environment is shared/config.
pub mod Environment
pub mod Float
pub mod Clock
pub mod Random
