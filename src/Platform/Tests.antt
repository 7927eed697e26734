-- ===== src/Platform/Tests.antt =====
-- Runs of the platform's operations on small databases.
mod Data
mod Logs
mod Requests
mod Queues
mod Steps
mod Stores
