-- ===== src/Overtime.antt =====
-- apps/hr/src/modules/overtime: the rules for the times and months of overtime.
mod Tests
pub mod Overlap
pub mod Months
pub mod Submission
