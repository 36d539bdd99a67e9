-- ===== src/Base/Dict.antt =====
-- Python's `dict` and `OrderedDict`: association lists in insertion order. Writing a key that is
-- present keeps its place, a new key goes last, and the first entry is the oldest.
mod Defs
mod Laws
mod Order
unfoldable pub use Defs.*
pub use Laws.*
pub use Order.*
