-- ===== src/Variant.antt =====
-- base/variant.cpp and base/variant.h
pub mod Data
pub mod Print
pub mod Parser
pub mod Value
pub mod Access
pub mod Compare
pub mod Register
pub mod Order
pub mod Sub
pub mod Shared
pub mod RoundTrip
