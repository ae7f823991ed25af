-- ===== src/Config/ServerArgs.antt =====
-- The command line of the measurement server (src/mioserver/parser.rs).
use nettest.Common.{
  ℕ, Bool, true, List, [], ◌∷◌, if◌then◌else◌, Option, none, some, Bytes, codes, drop,
}
use nettest.Text.{parse_u64}
use nettest.Config.{LevelFilter, FileConfig}
use nettest.Config.Address.{
  unknown_option, bad_number, bad_level, help_printed, not_root, Parsed, parsed, panicked,
  then_parsed, then_unwrapped, or_error, SocketAddr, IpParsers, parse_listen_address,
}
use nettest.Config.Arguments.{
  Flag, dash_l, dash_L, dash_c, dash_k, dash_t, dash_u, dash_d, dash_log, dash_e, dash_register,
  dash_h, Turn, next, fails, panics, turn_unwrap, with_value, arg_loop,
}

-- `ServerConfig` of src/mioserver/server.rs.
pub record ServerConfig : Type 0 where
  pub tcp_address : SocketAddr
  pub tls_address : SocketAddr
  pub cert_path : Option Bytes
  pub key_path : Option Bytes
  pub num_workers : Option ℕ
  pub user : Option Bytes
  pub daemon : Bool
  pub version : Option Bytes
  pub secret_key : Option Bytes
  pub log_level : Option LevelFilter
  pub server_registration : Bool
  pub control_server : Bytes
  pub hostname : Option Bytes
  pub x_nettest_client : Bytes
  pub registration_token : Option Bytes

-- What the program finds outside: the parsers of addresses and of log levels, whether it runs as
-- root, and whether a logger can be set up and the program made a daemon.
pub record System : Type 0 where
  pub parsers : IpParsers
  pub parse_level : Bytes → Option LevelFilter
  pub is_root : Bool
  pub init_logger : LevelFilter → Bool
  pub daemonize : Bool

abbrev pub or_text : Bytes → Option Bytes → Bytes
or_text d none = d
or_text d (some s) = s

-- The settings of the file, with the two addresses parsed.
abbrev pub from_file : FileConfig → SocketAddr → SocketAddr → ServerConfig
from_file f tcp tls = record {
  tcp_address = tcp;
  tls_address = tls;
  cert_path = f.cert_path;
  key_path = f.key_path;
  num_workers = f.server_workers;
  user = f.user;
  daemon = f.daemonize;
  version = some (codes "2.0.0");
  secret_key = f.secret_key;
  log_level = none;
  server_registration = f.server_registration;
  control_server = f.control_server;
  hostname = f.hostname;
  x_nettest_client = f.x_nettest_client;
  registration_token = f.registration_token;
}

module _ (sys : System) where
  unfoldable pub initial_config : FileConfig → Parsed ServerConfig
  initial_config f = then_unwrapped (parse_listen_address sys.parsers f.server_tcp_port) (λ tcp.
      then_unwrapped (parse_listen_address sys.parsers (or_text (codes "443") f.server_tls_port))
        (λ tls. parsed (from_file f tcp tls)))

  -- `-u`: the index is moved twice in the arm, and out of range the argument's read panics.
  abbrev user_arm : List Bytes → ServerConfig → Turn ServerConfig
  user_arm [] c = panics
  user_arm (v ∷ rest) c = next 2 (record c { user = some v })

  unfoldable pub server_arm : Flag → Bytes → List Bytes → ServerConfig → Turn ServerConfig
  server_arm dash_l a rest c = with_value rest c (λ v.
      turn_unwrap (parse_listen_address sys.parsers v)
        (λ addr. next 1 (record c { tcp_address = addr })))
  server_arm dash_L a rest c = with_value rest c (λ v.
      turn_unwrap (parse_listen_address sys.parsers v)
        (λ addr. next 1 (record c { tls_address = addr })))
  server_arm dash_c a rest c = with_value rest c (λ v. next 1 (record c { cert_path = some v }))
  server_arm dash_k a rest c = with_value rest c (λ v. next 1 (record c { key_path = some v }))
  server_arm dash_t a rest c = with_value rest c (λ v.
      turn_unwrap (or_error bad_number (parse_u64 v))
        (λ n. next 1 (record c { num_workers = some n })))
  server_arm dash_u a rest c = if sys.is_root then user_arm rest c else fails not_root
  server_arm dash_d a rest c = next 0 (record c { daemon = true })
  server_arm dash_log a rest c = with_value rest c (λ v.
      turn_unwrap (or_error bad_level (sys.parse_level v))
        (λ l. next 1 (record c { log_level = some l })))
  server_arm dash_e a rest c = with_value rest c (λ v. next 1 (record c { secret_key = some v }))
  server_arm dash_register a rest c = next 0 (record c { server_registration = true })
  server_arm dash_h a rest c = fails help_printed
  server_arm _ a rest c = fails (unknown_option a)

  -- `logger::init_logger(level).unwrap()`.
  abbrev pub with_logger : Option LevelFilter → ServerConfig → Parsed ServerConfig
  with_logger none c = parsed c
  with_logger (some l) c = if sys.init_logger l then parsed c else panicked

  -- The loop starts at `args[1]`.
  unfoldable pub parse_args : List Bytes → FileConfig → Parsed ServerConfig
  parse_args args f =
      then_parsed (initial_config f)
        (λ c. then_parsed (arg_loop server_arm 0 (drop 1 args) c) (λ d. with_logger d.log_level d))
