-- ===== src/Shm.antt =====
-- tornado/shm/container.hpp: containers and a timer queue in shared memory.
pub mod Segment
pub mod Maps
pub mod Timers
pub mod Stripped
pub mod Equivalence
pub mod Opening
pub mod Memory
pub mod PlainMap
pub mod Sessions
pub mod StringMaps
pub mod Collections
pub mod Queue
pub mod PlainQueues
mod Tests
mod SessionTests
