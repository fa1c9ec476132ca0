-- ===== src/Order.antt =====
-- `Ord` of the standard library and the instances that the program's keys use: texts, numbers, pairs,
-- options and lists.
mod Interface
mod Composed
mod Primitive
pub use Interface.*
pub use Composed.*
pub use Primitive.*
