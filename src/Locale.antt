-- ===== src/Locale.antt =====
-- src/bas/locale: the UTF-8 codec.
pub mod Utf8
