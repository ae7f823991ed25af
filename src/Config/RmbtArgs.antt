-- ===== src/Config/RmbtArgs.antt =====
-- The command line of the older server (`from_args_vec` of src/tokio_server/server_config.rs).
use nettest.Common.{
  ℕ, Bool, true, false, not, ◌&&◌, ◌||◌, List, [], ◌∷◌, ◌++◌, ◌==◌, if◌then◌else◌, Option, none,
  some, Bytes, codes, bytes_eq, drop,
}
use nettest.Text.{parse_u64}
use nettest.Net.{is_some}
use nettest.Config.{level_info, level_debug}
use nettest.Config.Address.{
  unknown_option, bad_number, only_one, bad_version, help_printed, not_root, no_threads, no_logger,
  no_daemon, Parsed, parsed, failed, then_parsed, then_unwrapped, or_error, SocketAddr,
  parse_listen_address,
}
use nettest.Config.Arguments.{
  Flag, dash_l, dash_L, dash_c, dash_k, dash_t, dash_u, dash_d, dash_D, dash_w, dash_v, dash_h,
  Turn, next, fails, panics, turn_try, with_value, arg_loop,
}
use nettest.Config.ServerArgs.{System}

pub record RmbtServerConfig : Type 0 where
  pub listen_addresses : List SocketAddr
  pub ssl_listen_addresses : List SocketAddr
  pub cert_path : Option Bytes
  pub key_path : Option Bytes
  pub num_threads : ℕ
  pub user : Option Bytes
  pub daemon : Bool
  pub user_privileges : Bool
  pub debug : Bool
  pub websocket : Bool
  pub version : Option ℕ
  pub secret_keys : List Bytes
  pub secret_key_labels : List Bytes

abbrev pub initial_config : RmbtServerConfig
initial_config = record {
  listen_addresses = [];
  ssl_listen_addresses = [];
  cert_path = none;
  key_path = none;
  num_threads = 200;
  user = none;
  daemon = false;
  user_privileges = false;
  debug = false;
  websocket = false;
  version = none;
  secret_keys = [];
  secret_key_labels = [];
}

-- `if config.field.is_some() { return Err(only one) }`.
abbrev once : {A C : Type 0} → Bytes → Option A → Turn C → Turn C
once name none t = t
once name (some a) t = fails (only_one name)

abbrev version_arm : Bytes → RmbtServerConfig → Turn RmbtServerConfig
version_arm v c =
    once (codes "-v") c.version (
      if bytes_eq v (codes "0.3")
      then next 1 (record c { version = some 3 })
      else fails bad_version)

-- `-u`: the index is moved twice in the arm, and out of range the argument's read panics.
abbrev user_value : List Bytes → RmbtServerConfig → Turn RmbtServerConfig
user_value [] c = panics
user_value (v ∷ rest) c = next 2 (record c { user = some v })

abbrev user_arm : Bool → List Bytes → RmbtServerConfig → Turn RmbtServerConfig
user_arm false rest c = fails not_root
user_arm true rest c =
    once (codes "-u") c.user (user_value rest (record c { user_privileges = true }))

module _ (sys : System) where
  unfoldable pub rmbt_arm : Flag → Bytes → List Bytes → RmbtServerConfig → Turn RmbtServerConfig
  rmbt_arm dash_l a rest c = with_value rest c (λ v.
      turn_try (parse_listen_address sys.parsers v)
        (λ addr. next 1 (record c { listen_addresses = c.listen_addresses ++ addr ∷ [] })))
  rmbt_arm dash_L a rest c = with_value rest c (λ v.
      turn_try (parse_listen_address sys.parsers v)
        (λ addr. next 1 (record c { ssl_listen_addresses = c.ssl_listen_addresses ++ addr ∷ [] })))
  rmbt_arm dash_c a rest c =
      with_value rest c
        (λ v. once (codes "-c") c.cert_path (next 1 (record c { cert_path = some v })))
  rmbt_arm dash_k a rest c =
      with_value rest c
        (λ v. once (codes "-k") c.key_path (next 1 (record c { key_path = some v })))
  rmbt_arm dash_t a rest c = with_value rest c (λ v.
      turn_try (or_error bad_number (parse_u64 v)) (λ n. next 1 (record c { num_threads = n })))
  rmbt_arm dash_u a rest c = user_arm sys.is_root rest c
  rmbt_arm dash_d a rest c = next 0 (record c { daemon = true })
  rmbt_arm dash_D a rest c = next 0 (record c { debug = true })
  rmbt_arm dash_w a rest c = next 0 (record c { websocket = true })
  rmbt_arm dash_v a rest c = with_value rest c (λ v. version_arm v c)
  rmbt_arm dash_h a rest c = fails help_printed
  rmbt_arm _ a rest c = fails (unknown_option a)

  -- The fixed addresses that are added behind the loop.
  abbrev with_tls : RmbtServerConfig → Parsed RmbtServerConfig
  with_tls c =
      if is_some c.cert_path && is_some c.key_path
      then then_unwrapped (parse_listen_address sys.parsers (codes "8080"))
          (λ a. parsed (record c { ssl_listen_addresses = c.ssl_listen_addresses ++ a ∷ [] }))
      else parsed c

  abbrev with_tcp : RmbtServerConfig → Parsed RmbtServerConfig
  with_tcp c =
      then_unwrapped (parse_listen_address sys.parsers (codes "5005"))
        (λ a. parsed (record c { listen_addresses = c.listen_addresses ++ a ∷ [] }))

  abbrev as_daemon : RmbtServerConfig → Parsed RmbtServerConfig
  as_daemon c = if c.daemon && not sys.daemonize then failed no_daemon else parsed c

  unfoldable pub finish : RmbtServerConfig → Parsed RmbtServerConfig
  finish c =
      if not (sys.init_logger (if c.debug then level_debug else level_info))
      then failed no_logger
      else if c.num_threads == 0
      then failed no_threads
      else then_parsed (with_tls c) (λ d. then_parsed (with_tcp d) as_daemon)

  -- The loop starts at `args[1]`.
  unfoldable pub from_args_vec : List Bytes → Parsed RmbtServerConfig
  from_args_vec args = then_parsed (arg_loop rmbt_arm 0 (drop 1 args) initial_config) finish

  abbrev has_help : List Bytes → Bool
  has_help [] = false
  has_help (a ∷ args) = bytes_eq a (codes "-h") || bytes_eq a (codes "--help") || has_help args

  unfoldable pub from_args : List Bytes → Parsed RmbtServerConfig
  from_args args = if has_help args then failed help_printed else from_args_vec args
