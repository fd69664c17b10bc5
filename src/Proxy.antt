-- ===== src/Proxy.antt =====
-- The proxy protocol: the host side in crates/adb-proxy/src, the device side in
-- crates/adbshare-proxy-device/src/main.rs.
pub mod Ops
pub mod Device
pub mod Framing
pub mod Client
pub mod Serve
pub mod Listing
mod Examples
