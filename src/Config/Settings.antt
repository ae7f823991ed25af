-- ===== src/Config/Settings.antt =====
-- The settings that a configuration file can make (src/config/parser.rs, nettest.conf), with the text
-- of each line and what it means for the settings of the program.
use nettest.Common.{
  ℕ, ◌≤◌, Bool, true, false, List, [], ◌∷◌, ◌++◌, some, Bytes, codes, ◌≡◌, ◌≢◌, All,
}
use nettest.Text.{format_u64, trim, max_u64}
use nettest.Text.Lines.{IsInLine}
use nettest.Text.Split.{max_u16, max_u32}
use nettest.Text.Split.Laws.{Without}
use nettest.Config.{
  App, server, client, LevelFilter, level_info, level_debug, level_trace, FileConfig,
}
use nettest.Config.Parser.{
  Key, key_default_mode, key_server_tcp_port, key_server_tls_port, key_cert_path, key_key_path,
  key_server_workers, key_user, key_daemonize, key_use_websocket, key_protocol_version,
  key_client_use_tls, key_client_use_websocket, key_logger, key_server_registration, key_hostname,
  key_x_nettest_client, key_control_server, key_client_uuid, key_unknown,
}

-- The three levels that the file can name.
pub data Level : Type 0 where
  info debug trace : Level

pub data Setting : Type 0 where
  set_mode : App → Setting
  set_tcp_port set_tls_port set_workers set_protocol_version : ℕ → Setting
  set_cert_path set_key_path set_user set_hostname : Bytes → Setting
  set_x_nettest_client set_control_server set_client_uuid : Bytes → Setting
  set_daemonize set_websocket set_client_tls set_client_websocket set_registration : Bool → Setting
  set_level : Level → Setting

-- A line of the file.
pub data Line : Type 0 where
  setting : Setting → Line
  comment : Bytes → Line
  blank : Line

abbrev pub mode_text : App → Bytes
mode_text server = codes "server"
mode_text client = codes "client"

abbrev pub bool_text : Bool → Bytes
bool_text true = codes "true"
bool_text false = codes "false"

abbrev pub level_text : Level → Bytes
level_text info = codes "info"
level_text debug = codes "debug"
level_text trace = codes "trace"

abbrev pub level_filter : Level → LevelFilter
level_filter info = level_info
level_filter debug = level_debug
level_filter trace = level_trace

abbrev pub key_name : Key → Bytes
key_name key_default_mode = codes "default_mode"
key_name key_server_tcp_port = codes "server_tcp_port"
key_name key_server_tls_port = codes "server_tls_port"
key_name key_cert_path = codes "cert_path"
key_name key_key_path = codes "key_path"
key_name key_server_workers = codes "server_workers"
key_name key_user = codes "user"
key_name key_daemonize = codes "daemonize"
key_name key_use_websocket = codes "use_websocket"
key_name key_protocol_version = codes "protocol_version"
key_name key_client_use_tls = codes "client_use_tls"
key_name key_client_use_websocket = codes "client_use_websocket"
key_name key_logger = codes "logger"
key_name key_server_registration = codes "server_registration"
key_name key_hostname = codes "hostname"
key_name key_x_nettest_client = codes "x_nettest_client"
key_name key_control_server = codes "control_server"
key_name key_client_uuid = codes "client_uuid"
key_name key_unknown = codes "unknown"

abbrev pub key_set : Setting → Key
key_set (set_mode m) = key_default_mode
key_set (set_tcp_port n) = key_server_tcp_port
key_set (set_tls_port n) = key_server_tls_port
key_set (set_workers n) = key_server_workers
key_set (set_protocol_version n) = key_protocol_version
key_set (set_cert_path v) = key_cert_path
key_set (set_key_path v) = key_key_path
key_set (set_user v) = key_user
key_set (set_hostname v) = key_hostname
key_set (set_x_nettest_client v) = key_x_nettest_client
key_set (set_control_server v) = key_control_server
key_set (set_client_uuid v) = key_client_uuid
key_set (set_daemonize b) = key_daemonize
key_set (set_websocket b) = key_use_websocket
key_set (set_client_tls b) = key_client_use_tls
key_set (set_client_websocket b) = key_client_use_websocket
key_set (set_registration b) = key_server_registration
key_set (set_level l) = key_logger

abbrev pub value_text : Setting → Bytes
value_text (set_mode m) = mode_text m
value_text (set_tcp_port n) = format_u64 n
value_text (set_tls_port n) = format_u64 n
value_text (set_workers n) = format_u64 n
value_text (set_protocol_version n) = format_u64 n
value_text (set_cert_path v) = v
value_text (set_key_path v) = v
value_text (set_user v) = v
value_text (set_hostname v) = v
value_text (set_x_nettest_client v) = v
value_text (set_control_server v) = v
value_text (set_client_uuid v) = v
value_text (set_daemonize b) = bool_text b
value_text (set_websocket b) = bool_text b
value_text (set_client_tls b) = bool_text b
value_text (set_client_websocket b) = bool_text b
value_text (set_registration b) = bool_text b
value_text (set_level l) = level_text l

-- A line `key = "value"`.
abbrev pub line_text : Line → Bytes
line_text (setting s) =
    key_name (key_set s) ++ (b' ' ∷ b'=' ∷ b' ' ∷ b'"' ∷ (value_text s ++ b'"' ∷ []))
line_text (comment t) = b'#' ∷ t
line_text blank = []

unfoldable pub file_text : List Line → Bytes
file_text [] = []
file_text (l ∷ ls) = line_text l ++ b'\n' ∷ file_text ls

-- What a setting means.
abbrev pub apply_setting : Setting → FileConfig → FileConfig
apply_setting (set_mode m) c = record c { app = m }
apply_setting (set_tcp_port n) c = record c { server_tcp_port = format_u64 n }
apply_setting (set_tls_port n) c = record c { server_tls_port = some (format_u64 n) }
apply_setting (set_workers n) c = record c { server_workers = some n }
apply_setting (set_protocol_version n) c = record c { protocol_version = some n }
apply_setting (set_cert_path v) c = record c { cert_path = some v }
apply_setting (set_key_path v) c = record c { key_path = some v }
apply_setting (set_user v) c = record c { user = some v }
apply_setting (set_hostname v) c = record c { hostname = some v }
apply_setting (set_x_nettest_client v) c = record c { x_nettest_client = v }
apply_setting (set_control_server v) c = record c { control_server = v }
apply_setting (set_client_uuid v) c = record c { client_uuid = some v }
apply_setting (set_daemonize b) c = record c { daemonize = b }
apply_setting (set_websocket b) c = record c { use_websocket = b }
apply_setting (set_client_tls b) c = record c { client_use_tls = b }
apply_setting (set_client_websocket b) c = record c { client_use_websocket = b }
apply_setting (set_registration b) c = record c { server_registration = b }
apply_setting (set_level l) c = record c { logger = level_filter l }

unfoldable pub apply_lines : List Line → FileConfig → FileConfig
apply_lines [] c = c
apply_lines (setting s ∷ ls) c = apply_lines ls (apply_setting s c)
apply_lines (comment t ∷ ls) c = apply_lines ls c
apply_lines (blank ∷ ls) c = apply_lines ls c

-- Texts that stand between quotes on one line.
pub record IsQuotable (v : Bytes) : Type 0 where
  pub no_quote : Without b'"' v
  pub one_line : All IsInLine v

-- The values that a line can carry: numbers within the bounds of their types, texts without a quote
-- or a newline, and a client's id that is not empty and has no space at its ends.
abbrev pub IsWritable : Setting → Type 0
IsWritable (set_tcp_port n) = n ≤ max_u16
IsWritable (set_tls_port n) = n ≤ max_u16
IsWritable (set_workers n) = n ≤ max_u64
IsWritable (set_protocol_version n) = n ≤ max_u32
IsWritable (set_cert_path v) = IsQuotable v
IsWritable (set_key_path v) = IsQuotable v
IsWritable (set_user v) = IsQuotable v
IsWritable (set_hostname v) = IsQuotable v
IsWritable (set_x_nettest_client v) = IsQuotable v
IsWritable (set_control_server v) = IsQuotable v
IsWritable (set_client_uuid v) = IsQuotable v × (v ≢ []) × (trim v ≡ v)
IsWritable _ = Unit

abbrev pub IsWritableLine : Line → Type 0
IsWritableLine (setting s) = IsWritable s
IsWritableLine (comment t) = All IsInLine t
IsWritableLine blank = Unit
