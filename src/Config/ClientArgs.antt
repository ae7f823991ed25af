-- ===== src/Config/ClientArgs.antt =====
-- The command line of the measurement client (src/client/args_parser.rs).
use nettest.Common.{
  ℕ, ◌%◌, ◌^◌, Bool, true, false, List, [], ◌∷◌, if◌then◌else◌, Option, none, some, Bytes, codes,
  bytes_eq, starts_with,
}
use nettest.Text.{parse_u64}
use nettest.Text.Split.{match_text, parse_upto, max_u16}
use nettest.Config.{LevelFilter, level_info, level_debug, level_trace, FileConfig}
use nettest.Config.Address.{
  unknown_option, bad_number, bad_level, help_printed, no_server, Parsed, parsed, failed, panicked,
  then_parsed, then_unwrapped, or_error,
}
use nettest.Config.Arguments.{
  Flag, dash_c, dash_t, dash_tls, dash_ws, dash_g, dash_raw, dash_save, dash_git_hash, dash_log,
  dash_p, dash_h, Turn, next, fails, turn_try, with_value, arg_loop,
}
use nettest.Config.ServerArgs.{or_text}

-- `ClientConfig` of src/client/client.rs.
pub record ClientConfig : Type 0 where
  pub use_tls : Bool
  pub use_websocket : Bool
  pub graphs : Bool
  pub raw_output : Bool
  pub thread_count : ℕ
  pub log : Option LevelFilter
  pub server : Option Bytes
  pub port : ℕ
  pub tls_port : ℕ
  pub x_nettest_client : Bytes
  pub control_server : Bytes
  pub save_results : Bool
  pub client_uuid : Option Bytes
  pub git_hash : Option Bytes

-- What is used of `MeasurementServer` and `ServerTypeDetail` (src/client/control_server/servers.rs);
-- an `i32` port is given by the number that its cast to u64 is.
pub record ServerTypeDetail : Type 0 where
  pub server_type : Bytes
  pub port : ℕ
  pub port_ssl : ℕ

pub record MeasurementServer : Type 0 where
  pub web_address : Bytes
  pub ip_address : Option Bytes
  pub server_type_details : List ServerTypeDetail

abbrev pub or_port : ℕ → Option ℕ → ℕ
or_port d none = d
or_port d (some n) = n

-- The settings of the file, with the port for TLS parsed.
abbrev pub from_file : FileConfig → ℕ → ClientConfig
from_file f tls = record {
  use_tls = f.client_use_tls;
  use_websocket = f.client_use_websocket;
  graphs = false;
  raw_output = false;
  thread_count = f.client_thread_count;
  log = none;
  server = none;
  port = or_port 5005 (parse_upto max_u16 f.server_tcp_port);
  tls_port = tls;
  x_nettest_client = f.x_nettest_client;
  control_server = f.control_server;
  save_results = false;
  client_uuid = f.client_uuid;
  git_hash = none;
}

unfoldable pub initial_config : FileConfig → Parsed ClientConfig
initial_config f =
    then_unwrapped
      (or_error bad_number (parse_upto max_u16 (or_text (codes "443") f.server_tls_port)))
      (λ tls. parsed (from_file f tls))

-- `-c` takes the next argument unless that begins with a dash.
abbrev server_value : List Bytes → ClientConfig → Turn ClientConfig
server_value [] c = next 0 (record c { server = none })
server_value (v ∷ rest) c =
    if starts_with (codes "-") v
    then next 0 (record c { server = none })
    else next 1 (record c { server = some v })

unfoldable pub level_of : Bytes → Option LevelFilter
level_of = match_text none (
    (codes "info", some level_info)
    ∷ (codes "debug", some level_debug)
    ∷ (codes "trace", some level_trace)
    ∷ [])

unfoldable pub client_arm : Flag → Bytes → List Bytes → ClientConfig → Turn ClientConfig
client_arm dash_t a rest c = with_value rest c (λ v.
    turn_try (or_error bad_number (parse_u64 v)) (λ n. next 1 (record c { thread_count = n })))
client_arm dash_c a rest c = server_value rest c
client_arm dash_tls a rest c = next 0 (record c { use_tls = true })
client_arm dash_ws a rest c = next 0 (record c { use_websocket = true })
client_arm dash_g a rest c = next 0 (record c { graphs = true })
client_arm dash_raw a rest c = next 0 (record c { raw_output = true })
client_arm dash_save a rest c = next 0 (record c { save_results = true })
client_arm dash_git_hash a rest c = with_value rest c (λ v. next 1 (record c { git_hash = some v }))
client_arm dash_log a rest c =
    with_value rest c
      (λ v. turn_try (or_error bad_level (level_of v)) (λ l. next 1 (record c { log = some l })))
client_arm dash_p a rest c = with_value rest c (λ v.
    turn_try (or_error bad_number (parse_upto max_u16 v))
      (λ n. next 1 (record c { port = n; tls_port = n })))
client_arm dash_h a rest c = fails help_printed
client_arm _ a rest c = fails (unknown_option a)

-- `port as u16`, from the first detail of the type that is asked for.
unfoldable pub with_details : List ServerTypeDetail → ClientConfig → ClientConfig
with_details [] c = c
with_details (d ∷ ds) c =
    let rest = with_details ds c in
    if bytes_eq d.server_type (codes "RMBT")
    then record c { port = d.port % 2 ^ 16; tls_port = d.port_ssl % 2 ^ 16 }
    else rest

-- `server.ip_address.unwrap()` for a server without a web address.
abbrev pub address_of : Bytes → Option Bytes → Parsed Bytes
address_of [] none = panicked
address_of [] (some ip) = parsed ip
address_of (c ∷ s) ip = parsed (c ∷ s)

-- The logger can be set up or not; the control server answers with a server, with none, or not at all.
module _ (init_logger : LevelFilter → Bool) (best_server : Parsed (Option MeasurementServer)) where
  abbrev pub use_server : ClientConfig → Option MeasurementServer → Parsed ClientConfig
  use_server c none = failed no_server
  use_server c (some s) =
      then_parsed (address_of s.web_address s.ip_address)
        (λ a. parsed (with_details s.server_type_details (record c { server = some a })))

  abbrev pub with_server : Option Bytes → ClientConfig → Parsed ClientConfig
  with_server none c = then_parsed best_server (use_server c)
  with_server (some a) c = parsed c

  abbrev pub with_logger : Option LevelFilter → ClientConfig → Parsed ClientConfig
  with_logger none c = parsed c
  with_logger (some l) c = if init_logger l then parsed c else panicked

  unfoldable pub parse_args : List Bytes → FileConfig → Parsed ClientConfig
  parse_args args f = then_parsed (initial_config f) (λ c.
      then_parsed (arg_loop client_arm 0 args c)
        (λ d. then_parsed (with_logger d.log d) (λ e. with_server e.server e)))
