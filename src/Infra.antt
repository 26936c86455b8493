-- ===== src/Infra.antt =====
-- infra/: the guards of paths, command lines, fetches and networks, deliveries, heartbeats, what a
-- device signs, and .env files.
pub mod Percent
pub mod FsPath
pub mod PathGuard
pub mod SandboxPaths
pub mod ExecSafety
pub mod Url
pub mod FetchGuard
pub mod DeliveryQueue
pub mod NetworkMode
pub mod ExecTrust
pub mod Heartbeat
pub mod DeviceAuth
pub mod Dotenv
