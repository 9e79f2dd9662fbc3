-- ===== src/Generator/Rules.antt =====
-- Rules for the runs of a generator: three kinds of statement about all runs of one, each with a
-- rule for every way to compose them.
mod EachEntry
mod SealedTrace
mod Counting
mod Projection
pub use EachEntry.*
pub use SealedTrace.*
pub use Projection.*
pub use Counting.*
