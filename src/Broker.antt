-- ===== src/Broker.antt =====
-- The objects of a broker: include/brokerobject.h and src/recovery/brokerobject.cpp.
pub mod Types
pub mod Info
pub mod Operator
