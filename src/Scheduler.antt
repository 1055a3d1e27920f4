-- ===== src/Scheduler.antt =====
-- vstutils/celery_beat_scheduler.py: the scheduler of which one process at a time runs the tasks.
pub mod Defs
pub mod Discard
pub mod Ticks
mod Tests
