-- ===== src/Tests.antt =====
-- The theorems at concrete inputs, and runs of the model.
mod Bytes
mod Connections
mod Demos
mod Hosts
mod Lives
mod Loops
mod Quits
mod Servers
mod Sockets
mod Services
mod Systems
mod Threads
