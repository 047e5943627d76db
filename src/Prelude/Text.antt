-- ===== src/Prelude/Text.antt =====
-- The operations of Python's `str` that the program uses, over the native texts.
mod Defs
mod Laws
mod Decimal
unfoldable pub use Defs.*
pub use Laws.*
unfoldable pub use Decimal.*
