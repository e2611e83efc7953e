-- ===== src/Io.antt =====
-- src/bas/io/path.c. `realpath` of the C library is an argument; there is memory for the copy.
pub mod File
use bas_c.Common.{Option, none, some, Bytes}

unfoldable pub path_normalize : (Bytes → Option Bytes) → Bytes → Option Bytes
path_normalize realpath path = elim (realpath path) [ some real ↦ some real | none ↦ none ]
