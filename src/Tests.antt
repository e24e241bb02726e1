-- ===== src/Tests.antt =====
-- The theorems applied to concrete inputs, and runs of the definitions.
pub mod Ip
pub mod Config
pub mod Lease
pub mod Udp
pub mod Watch
pub mod Config6
pub mod Vici
pub mod Kube
pub mod Routes
pub mod RouteTable
pub mod Acquire
pub mod Hub
pub mod Vxlan
pub mod Flags
pub mod Frames
