-- ===== src/Text.antt =====
-- What the program uses of Go's strings, unicode/utf8 and unicode/utf16 packages, on byte lists.
pub mod Utf8
pub mod Split
pub mod Space
pub mod FilePath
