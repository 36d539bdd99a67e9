-- ===== src/Server.antt =====
-- gateway/server.py: the gateway's handlers over the state of all its parts.
mod State
mod Dispatch
mod Loads
mod Failover
mod Loop
mod Admin
mod Guards
mod Request
mod Stages
mod Handler
mod Targets
mod Balance
mod Settling
mod Selection
mod Lifecycle
mod Tests
