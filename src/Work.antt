-- ===== src/Work.antt =====
-- kern/work.{h,c} and kern/work_i.h: queues of deferred works, and the pools that hold them.
pub mod Queue
pub mod Pool
pub mod Process
