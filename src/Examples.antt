-- ===== src/Examples.antt =====
-- Concrete runs to which the theorems apply.
mod Routers
mod Registries
mod Servers
mod Calls
mod Accounts
mod Queues
mod Rooms
mod Lobby
mod Stage
mod Launch
