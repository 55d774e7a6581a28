-- ===== src/Text.antt =====
-- Go strings, and what the program uses of the packages strings, unicode and strconv. A text is a
-- list of code points: the string is valid UTF-8, and `byte_len` is its length in bytes.
mod Chars
mod Basic
mod Trim
mod Split
mod Decimal
mod Contains
mod Digits
mod Search
unfoldable pub use Chars.*
unfoldable pub use Basic.*
unfoldable pub use Trim.*
unfoldable pub use Split.*
unfoldable pub use Decimal.*
unfoldable pub use Contains.*
unfoldable pub use Digits.*
unfoldable pub use Search.*
