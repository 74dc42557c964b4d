-- ===== src/Base/Text.antt =====
-- C strings as lists of bytes, and what the program uses of the C library on them: decimal print,
-- `atoi`, `strtok` with one separator, and `strcat` into a buffer of known size.
mod Defs
pub mod Decimal
pub mod Tokens
pub mod Buffer
unfoldable pub use Defs.*
