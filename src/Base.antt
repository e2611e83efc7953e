-- ===== src/Base.antt =====
-- src/bas/base: strings and string lists.
pub mod CString
pub mod Decimal
pub mod Str
pub mod Tokens
pub mod Getline
pub mod Slots
pub mod StringList
pub mod Unique
pub mod Wstring
pub mod WstringList
