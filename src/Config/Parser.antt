-- ===== src/Config/Parser.antt =====
-- The configuration file (src/config/parser.rs): one setting on a line, `key = value`.
use nettest.Common.{
  ℕ, Bool, true, false, List, [], ◌∷◌, Option, none, some, Bytes, codes, bytes_eq, starts_with,
  if◌then◌else◌,
}
use nettest.Text.{trim, split_terminator, parse_u64, format_u64}
use nettest.Text.Split.{
  trim_matches, split_once, match_text, parse_upto, max_u16, max_u32, parse_bool,
}
use nettest.Config.{
  server, client, LevelFilter, level_info, level_debug, level_trace, FileConfig,
  file_config_default,
}

-- The arms of the match on the key.
pub data Key : Type 0 where
  key_default_mode key_server_tcp_port key_server_tls_port key_cert_path key_key_path : Key
  key_server_workers key_user key_daemonize key_use_websocket key_protocol_version : Key
  key_client_use_tls key_client_use_websocket key_logger key_server_registration : Key
  key_hostname key_x_nettest_client key_control_server key_client_uuid key_unknown : Key

abbrev pub key_names : List (Bytes × Key)
key_names =
    (codes "default_mode", key_default_mode)
    ∷ (codes "server_tcp_port", key_server_tcp_port)
    ∷ (codes "server_tls_port", key_server_tls_port)
    ∷ (codes "cert_path", key_cert_path)
    ∷ (codes "key_path", key_key_path)
    ∷ (codes "server_workers", key_server_workers)
    ∷ (codes "user", key_user)
    ∷ (codes "daemonize", key_daemonize)
    ∷ (codes "use_websocket", key_use_websocket)
    ∷ (codes "protocol_version", key_protocol_version)
    ∷ (codes "client_use_tls", key_client_use_tls)
    ∷ (codes "client_use_websocket", key_client_use_websocket)
    ∷ (codes "logger", key_logger)
    ∷ (codes "server_registration", key_server_registration)
    ∷ (codes "hostname", key_hostname)
    ∷ (codes "x_nettest_client", key_x_nettest_client)
    ∷ (codes "control_server", key_control_server)
    ∷ (codes "client_uuid", key_client_uuid)
    ∷ []

unfoldable pub key_of : Bytes → Key
key_of = match_text key_unknown key_names

-- `port.to_string()` of a port, or the default.
abbrev pub printed_or : Bytes → Option ℕ → Bytes
printed_or d none = d
printed_or d (some n) = format_u64 n

unfoldable pub port_or : Bytes → Bytes → Bytes
port_or d value = printed_or d (parse_upto max_u16 value)

-- The number if there is one, what was there if not.
abbrev or_kept : Option ℕ → Option ℕ → Option ℕ
or_kept old none = old
or_kept old (some n) = some n

abbrev is_true : Bytes → Bool
is_true value = bytes_eq value (codes "true")

-- `value.parse().unwrap_or(false)`.
abbrev or_false : Option Bool → Bool
or_false none = false
or_false (some b) = b

unfoldable pub level_of : LevelFilter → Bytes → LevelFilter
level_of old =
    match_text old (
      (codes "info", level_info) ∷ (codes "debug", level_debug) ∷ (codes "trace", level_trace) ∷ [])

-- `if !clean_value.is_empty()`.
abbrev uuid_of : Option Bytes → Bytes → Option Bytes
uuid_of old [] = old
uuid_of old (c ∷ s) = some (c ∷ s)

unfoldable pub set_key : Key → Bytes → FileConfig → FileConfig
set_key key_default_mode v c = record c {
  app = if bytes_eq v (codes "server") then server else client;
}
set_key key_server_tcp_port v c = record c { server_tcp_port = port_or (codes "5005") v }
set_key key_server_tls_port v c = record c { server_tls_port = some (port_or (codes "443") v) }
set_key key_cert_path v c = record c { cert_path = some v }
set_key key_key_path v c = record c { key_path = some v }
set_key key_server_workers v c = record c {
  server_workers = or_kept c.server_workers (parse_u64 v);
}
set_key key_user v c = record c { user = some v }
set_key key_daemonize v c = record c { daemonize = or_false (parse_bool v) }
set_key key_use_websocket v c = record c { use_websocket = or_false (parse_bool v) }
set_key key_protocol_version v c = record c {
  protocol_version = or_kept c.protocol_version (parse_upto max_u32 v);
}
set_key key_client_use_tls v c = record c { client_use_tls = is_true v }
set_key key_client_use_websocket v c = record c { client_use_websocket = is_true v }
set_key key_logger v c = record c { logger = level_of c.logger v }
set_key key_server_registration v c = record c { server_registration = is_true v }
set_key key_hostname v c = record c { hostname = some v }
set_key key_x_nettest_client v c = record c { x_nettest_client = v }
set_key key_control_server v c = record c { control_server = v }
set_key key_client_uuid v c = record c {
  client_uuid = uuid_of c.client_uuid (trim (trim_matches b'"' v));
}
set_key key_unknown v c = c

abbrev pub set_pair : Option (Bytes × Bytes) → FileConfig → FileConfig
set_pair none c = c
set_pair (some (key, value)) c = set_key (key_of (trim key)) (trim_matches b'"' (trim value)) c

abbrev is_skipped : Bytes → Bool
is_skipped [] = true
is_skipped (c ∷ s) = starts_with (codes "#") (c ∷ s)

-- One round of the loop. `lines()` also takes a carriage return off a line, as the trim does.
abbrev pub set_trimmed : Bytes → FileConfig → FileConfig
set_trimmed line c = if is_skipped line then c else set_pair (split_once b'=' line) c

unfoldable pub set_line : Bytes → FileConfig → FileConfig
set_line line c = set_trimmed (trim line) c

unfoldable pub set_lines : List Bytes → FileConfig → FileConfig
set_lines [] c = c
set_lines (line ∷ rest) c = set_lines rest (set_line line c)

unfoldable pub parse_config_content : Bytes → FileConfig
parse_config_content content = set_lines (split_terminator content) file_config_default
