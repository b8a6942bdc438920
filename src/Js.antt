-- ===== src/Js.antt =====
-- The part of JavaScript that the program uses: texts, numbers, dynamic values and maps keyed by
-- texts. Texts are sequences of code points; lower case is that of ASCII. A number is an integer, a
-- fraction known by its integer part, or one of NaN and the infinities; rounding is not modelled.
mod Text
mod Numbers
mod Dynamic
mod Maps
mod Decimal
mod Bigints
mod Bits
mod Sort
mod Trims
mod Messages
unfoldable pub use Text.*
unfoldable pub use Numbers.*
unfoldable pub use Dynamic.*
unfoldable pub use Bigints.*
unfoldable pub use Messages.*
unfoldable pub use Maps.*
unfoldable pub use Sort.*
pub use Decimal.*
pub use Bits.*
pub use Trims.*
