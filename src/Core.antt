-- ===== src/Core.antt =====
-- core/mod.rs: the options of a listener. The children are core/io.rs and core/server.rs.
pub mod Listeners
pub mod Server
pub mod Clients
use ws_platform.Common.{ℕ, ◌-◌, ◌^◌, Option, none}

pub record Options : Type 0 where
  pub request_timeout : Option ℕ
  pub response_timeout : Option ℕ
  pub keepalive_timeout : Option ℕ
  pub keepalive_requests : ℕ

-- `Options::default`.
abbrev pub default_options : Options
default_options = record {
  request_timeout = none;
  response_timeout = none;
  keepalive_timeout = none;
  keepalive_requests = 2 ^ 64 - 1;
}
