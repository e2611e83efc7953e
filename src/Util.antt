-- ===== src/Util.antt =====
-- src/bas/util: the prefix map.
pub mod PrefixMap
