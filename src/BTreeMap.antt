-- ===== src/BTreeMap.antt =====
-- `BTreeMap` and `BTreeSet` of the standard library: the entries in ascending order of their keys,
-- which is the order that iteration shows. `HashMap` is read by the same functions where the code
-- only inserts, removes and looks up.
mod Defs
mod Laws
mod Entries
unfoldable pub use Defs.*
pub use Laws.*
pub use Entries.*
