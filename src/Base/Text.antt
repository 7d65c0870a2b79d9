-- ===== src/Base/Text.antt =====
-- Text as a list of code points, with the methods of `str` and `char` that the program calls.
-- Indices into a text stand in the source as byte offsets and only ever cut it into pieces; here
-- the pieces are taken directly.
mod Search
mod Numbers
mod Laws
mod Decimal
unfoldable pub use Search.*
unfoldable pub use Numbers.*
pub use Laws.*
pub use Decimal.*
