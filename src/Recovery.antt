-- ===== src/Recovery.antt =====
-- RecoveryManager: include/recoverymanager.h and src/recovery/recoverymanager.cpp.
pub mod Ignored
pub mod Store
pub mod Copy
pub mod Brokers
mod Tests
