-- ===== src/Pid.antt =====
-- kern/proc/pid.c: the directory of processes, a search tree with eight slots in a node.
-- Tree, Insert and Remove hold the functions; the other children are about them.
pub mod Tree
pub mod Insert
pub mod Remove
pub mod Locate
pub mod Search
pub mod Order
pub mod Slots
pub mod Room
pub mod Full
pub mod Allocate
pub mod Create
pub mod Charge
pub mod Exact
pub mod Destroy
mod Tests
