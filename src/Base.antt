-- ===== src/Base.antt =====
-- What the other modules share: library names passed on, tests on numbers, integers, tables of
-- rows, and the monad of a database session that can raise.
mod Names
mod Tests
mod Lists
pub mod Int
pub mod Table
pub mod Keys
pub mod Totals
pub mod Action
pub mod Preserves
pub mod Keeps
pub use Names.*
pub use Tests.*
pub use Lists.*
