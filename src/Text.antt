-- ===== src/Text.antt =====
-- Texts and lines: the methods of Python's `str` that the scripts call, their laws, and the lines
-- of a file.
pub mod Chars
pub mod Same
pub mod Strip
pub mod Lines
pub mod Decimal
pub mod Scan
unfoldable pub use Chars.*
