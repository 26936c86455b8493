-- ===== src/Samples.antt =====
-- Concrete inputs at which the theorems apply.
mod Paths
mod Commands
mod Fetches
mod Times
mod Tasks
mod Access
mod Deliveries
mod Agents
mod Gateways
mod Pools
mod Files
mod Handlers
