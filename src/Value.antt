-- ===== src/Value.antt =====
-- Python values, their dicts, equality and text.
mod Data
mod Equality
mod Laws
mod Text
unfoldable pub use Data.*
unfoldable pub use Equality.*
unfoldable pub use Text.*
unfoldable pub use Laws.*
