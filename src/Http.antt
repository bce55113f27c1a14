-- ===== src/Http.antt =====
-- http/: the parts of an HTTP exchange.
pub mod Scan
pub mod Types
pub mod Encoding
pub mod Request
pub mod Response
pub mod ServerCore
pub mod Expand
pub mod Plugins
pub mod Proxy
pub mod Server
