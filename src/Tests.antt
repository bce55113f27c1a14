-- ===== src/Tests.antt =====
-- Concrete inputs: runs of the model, and uses of its theorems.
pub mod Shared
pub mod Routers
pub mod Tables
pub mod Upstreams
pub mod Data
pub mod Requests
pub mod Responses
pub mod Pools
pub mod Monitors
pub mod Sites
pub mod Loops
pub mod Proxies
pub mod Servers
