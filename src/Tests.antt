-- ===== src/Tests.antt =====
-- The theorems at concrete inputs, over small implementations of what the program takes from others.
mod Doubles
mod ShadowLink
mod Storage
mod Records
mod Engine
mod Buffers
mod Clients
mod Programs
mod Configurations
mod Servers
mod Iris
mod Threads
mod Traces
mod Arguments
