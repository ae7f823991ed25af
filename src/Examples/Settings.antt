-- ===== src/Examples/Settings.antt =====
-- The theorems on settings and command lines at concrete files and arguments.
use nettest.Common.{true, List, [], ◌∷◌, none, some, Bytes, codes, arith, ◌≡◌, refl}
use nettest.Text.Split.{match_text, split_once, parse_upto}
use nettest.Config.{file_config_default, level_info}
use nettest.Config.Parser.{parse_config_content}
use nettest.Config.Settings.{
  Line, setting, comment, set_tcp_port, set_daemonize, file_text, apply_lines,
}
use nettest.Config.RoundTrip.{parse_config_content-file_text}
use nettest.Config.Address.{
  then_parsed, then_unwrapped, parse_listen_address, v6, parsed, failed, unknown_option,
}
use nettest.Config.Arguments.{flag_of, arg_loop}
use nettest.Config.ServerArgs.{System, ServerConfig}
use nettest.Config.RmbtArgs.{RmbtServerConfig}
use nettest.Config.Options.{spell_all, apply_all}
use nettest.Config.Options.Server.{
  ServerOption, listen_port, as_daemon, with_user, parse_args-spell_all, parse_args-unknown,
  parse_args-user,
}
use nettest.Config.Options.Client.{ClientOption, server, port, tls, parse_args-client}
use nettest.Config.Agreement.{Agrees, parse_args-Agrees}
use nettest.Config.ServerArgs
use nettest.Config.ClientArgs
use nettest.Config.Options.Server
use nettest.Config.Options.Client
use nettest.Config.RmbtArgs

abbrev root_system : System
root_system = record {
  parsers = record { parse_ipv4 = λ s. some 2130706433; parse_ipv6 = λ s. none };
  parse_level = λ s. some level_info;
  is_root = true;
  init_logger = λ l. true;
  daemonize = true;
}

abbrev port_file : Bytes
port_file = codes "server_tcp_port = 7000\nserver_tls_port = none\n"

abbrev three_lines : List Line
three_lines =
    comment (codes " server") ∷ setting (set_tcp_port 7000) ∷ setting (set_daemonize true) ∷ []

parse_config_content-file_text_example :
    parse_config_content (file_text three_lines) ≡ apply_lines three_lines file_config_default
parse_config_content-file_text_example = parse_config_content-file_text three_lines (ground arith)

abbrev two_options : List ServerOption
two_options = listen_port 7001 ∷ as_daemon ∷ []

parse_args-spell_all_example :
    ServerArgs.parse_args root_system
      (codes "-s" ∷ spell_all Server.spell two_options [])
      (parse_config_content port_file)
    ≡ parsed
        (apply_all Server.apply_option two_options (Server.file_settings root_system port_file))
parse_args-spell_all_example =
    parse_args-spell_all root_system port_file (codes "-s") two_options (omega arith, (tt, tt))

parse_args-unknown_example :
    ServerArgs.parse_args root_system
      (codes "-s" ∷ spell_all Server.spell two_options (codes "-q" ∷ codes "-d" ∷ []))
      (parse_config_content port_file)
    ≡ failed (unknown_option (codes "-q"))
unfolding flag_of match_text
parse_args-unknown_example =
    parse_args-unknown root_system port_file (codes "-s") two_options (codes "-q") (codes "-d" ∷ [])
      (omega arith, (tt, tt)) refl

parse_args-user_example :
    ServerArgs.parse_args root_system
      (codes "-s"
        ∷ spell_all Server.spell two_options (
            codes "-u"
            ∷ codes "nobody"
            ∷ codes "-register"
            ∷ spell_all Server.spell two_options []))
      (parse_config_content port_file)
    ≡ parsed (
        apply_all Server.apply_option two_options (
          with_user root_system (codes "nobody") (
            apply_all Server.apply_option two_options
              (Server.file_settings root_system port_file))))
parse_args-user_example =
    parse_args-user root_system port_file (codes "-s") (codes "nobody") (codes "-register")
      two_options two_options (omega arith, (tt, tt)) (omega arith, (tt, tt)) refl

abbrev client_options : List ClientOption
client_options = server (codes "127.0.0.1") ∷ port 7000 ∷ tls ∷ []

parse_args-client_example :
    ClientArgs.parse_args
      (λ l. true)
      (parsed none)
      (spell_all Client.spell client_options [])
      (parse_config_content port_file)
    ≡ parsed (apply_all Client.apply_option client_options (Client.file_settings port_file))
unfolding apply_all
parse_args-client_example =
    parse_args-client (λ l. true) (parsed none) port_file client_options (codes "127.0.0.1")
      (refl, (omega arith, (tt, tt))) (λ l. refl) refl

abbrev common_arguments : List Bytes
common_arguments = codes "-s" ∷ codes "-c" ∷ codes "cert.pem" ∷ codes "-t" ∷ codes "4" ∷ []

abbrev started : ServerConfig
started =
    ServerArgs.from_file file_config_default (record { ip = v6 0; port = 5005 })
      (record { ip = v6 0; port = 443 })

abbrev server_side : ServerConfig
server_side = record started { cert_path = some (codes "cert.pem"); num_workers = some 4 }

abbrev rmbt_side : RmbtServerConfig
rmbt_side = record RmbtArgs.initial_config {
  cert_path = some (codes "cert.pem");
  num_threads = 4;
  listen_addresses = record { ip = v6 0; port = 5005 } ∷ [];
}

parse_args-Agrees_example : Agrees server_side rmbt_side
unfolding ServerArgs.parse_args RmbtArgs.from_args then_parsed ServerArgs.initial_config
    then_unwrapped parse_listen_address split_once parse_upto arg_loop ServerArgs.server_arm flag_of
    match_text RmbtArgs.from_args_vec RmbtArgs.rmbt_arm RmbtArgs.finish
parse_args-Agrees_example =
    parse_args-Agrees root_system common_arguments file_config_default server_side rmbt_side
      (record {
        no_cert = refl;
        no_key = refl;
        no_user = refl;
        no_daemon = refl;
        no_workers = refl;
      })
      refl refl
