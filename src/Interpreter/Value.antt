-- ===== src/Interpreter/Value.antt =====
-- interpreter/src/storage/value.rs: the values of streams and their operators.
mod Data
mod Ops
pub use Data.*
unfoldable pub use Ops.*
