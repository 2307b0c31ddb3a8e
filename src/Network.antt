-- ===== src/Network.antt =====
-- internal/network: addresses, leases and subnets.
pub mod Address
pub mod Ipam
pub mod SubnetPool
pub mod Firewall
pub mod FlowLog
pub mod Nflog
pub mod Clash
pub mod Manager
