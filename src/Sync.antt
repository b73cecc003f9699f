-- ===== src/Sync.antt =====
-- kern/thread/synch.c: semaphores and locks, as threads that interleave between the sections that
-- a spinlock protects. The wait channels are those of kern/thread/thread.c.
pub mod Wchan
pub mod Sem
pub mod Lock
