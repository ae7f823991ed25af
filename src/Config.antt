-- ===== src/Config.antt =====
-- The settings of both programs (src/config/mod.rs): the record that the configuration file fills and
-- that the command lines of the server and of the client start from.
pub mod Parser
pub mod Ports
pub mod Settings
pub mod RoundTrip
pub mod Options
pub mod Agreement
pub mod Address
pub mod Arguments
pub mod ServerArgs
pub mod ClientArgs
pub mod RmbtArgs
use nettest.Common.{ℕ, Bool, false, Option, none, Bytes, codes}

pub data App : Type 0 where
  server client : App

-- `log::LevelFilter`.
pub data LevelFilter : Type 0 where
  level_off level_error level_warn level_info level_debug level_trace : LevelFilter

pub record FileConfig : Type 0 where
  pub app : App
  pub server_tcp_port : Bytes
  pub server_tls_port : Option Bytes
  pub cert_path : Option Bytes
  pub key_path : Option Bytes
  pub server_workers : Option ℕ
  pub user : Option Bytes
  pub daemonize : Bool
  pub use_websocket : Bool
  pub use_tls : Bool
  pub client_use_tls : Bool
  pub client_use_websocket : Bool
  pub client_thread_count : ℕ
  pub protocol_version : Option ℕ
  pub logger : LevelFilter
  pub secret_key : Option Bytes
  pub x_nettest_client : Bytes
  pub control_server : Bytes
  pub server_registration : Bool
  pub hostname : Option Bytes
  pub registration_token : Option Bytes
  pub client_uuid : Option Bytes

-- `FileConfig::default()`.
abbrev pub file_config_default : FileConfig
file_config_default = record {
  app = server;
  server_tcp_port = codes "5005";
  server_tls_port = none;
  cert_path = none;
  key_path = none;
  server_workers = none;
  user = none;
  daemonize = false;
  use_websocket = false;
  use_tls = false;
  client_use_tls = false;
  client_use_websocket = false;
  client_thread_count = 3;
  protocol_version = none;
  logger = level_off;
  secret_key = none;
  x_nettest_client = codes "nt";
  control_server = codes "https://api.nettest.org";
  server_registration = false;
  hostname = none;
  registration_token = none;
  client_uuid = none;
}
