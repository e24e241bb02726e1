-- ===== src/Udp.antt =====
-- crates/flannel-core/src/backend/udp: the packet proxy.
pub mod Packet
pub mod Routes
pub mod Proxy
