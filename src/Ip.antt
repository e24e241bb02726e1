-- ===== src/Ip.antt =====
-- Addresses and networks: crates/flannel-core/src/ip/ipnet.rs and ip6net.rs.
pub mod Parse
pub mod Align
pub mod Block
pub mod Pool
pub mod V4
pub mod V6
