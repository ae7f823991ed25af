-- ===== src/Config/Options/Client.antt =====
-- The options of the measurement client (src/client/args_parser.rs).
use nettest.Common.{
  none, Bool, ℕ, ◌≤◌, true, false, List, [], ◌∷◌, ◌++◌, some, Option, Bytes, codes, All, ◌≡◌, refl,
  starts_with,
}
use nettest.Text.{format_u64, max_u64}
use nettest.Text.Decimal.{parse_u64-format_u64}
use nettest.Text.Split.{match_text, max_u16}
use nettest.Config.{LevelFilter}
use nettest.Config.Ports.{read_port, file_tls_port, client_starts_from_file}
use nettest.Config.Parser.{parse_config_content}
use nettest.Config.Settings.{Level, info, debug, trace, level_text, level_filter}
use nettest.Config.Address.{Parsed, parsed, then_parsed}
use nettest.Config.Arguments.{flag_of, arg_loop}
use nettest.Config.ClientArgs.{
  ClientConfig, MeasurementServer, from_file, level_of, client_arm, with_logger, parse_args,
}
use nettest.Config.Options.{spell_all, apply_all, arg_loop-next, arg_loop-spell_all}

pub data ClientOption : Type 0 where
  threads port : ℕ → ClientOption
  server git_hash : Bytes → ClientOption
  tls websocket graphs raw_output save_results : ClientOption
  level : Level → ClientOption

abbrev pub spell : ClientOption → List Bytes
spell (threads n) = codes "-t" ∷ format_u64 n ∷ []
spell (port n) = codes "-p" ∷ format_u64 n ∷ []
spell (server v) = codes "-c" ∷ v ∷ []
spell (git_hash v) = codes "-git-hash" ∷ v ∷ []
spell tls = codes "-tls" ∷ []
spell websocket = codes "-ws" ∷ []
spell graphs = codes "-g" ∷ []
spell raw_output = codes "-raw" ∷ []
spell save_results = codes "-save" ∷ []
spell (level l) = codes "-log" ∷ level_text l ∷ []

abbrev pub apply_option : ClientOption → ClientConfig → ClientConfig
apply_option (threads n) c = record c { thread_count = n }
apply_option (port n) c = record c { port = n; tls_port = n }
apply_option (server v) c = record c { server = some v }
apply_option (git_hash v) c = record c { git_hash = some v }
apply_option tls c = record c { use_tls = true }
apply_option websocket c = record c { use_websocket = true }
apply_option graphs c = record c { graphs = true }
apply_option raw_output c = record c { raw_output = true }
apply_option save_results c = record c { save_results = true }
apply_option (level l) c = record c { log = some (level_filter l) }

-- Numbers that fit their types, and a server's name that does not begin with a dash.
abbrev pub IsSpelled : ClientOption → Type 0
IsSpelled (threads n) = n ≤ max_u64
IsSpelled (port n) = n ≤ max_u16
IsSpelled (server v) = starts_with (codes "-") v ≡ false
IsSpelled _ = Unit

spell-next :
    (o : ClientOption)
    → IsSpelled o
    → (rest : List Bytes) (c : ClientConfig)
    → arg_loop client_arm 0 (spell o ++ rest) c ≡ arg_loop client_arm 0 rest (apply_option o c)
unfolding arg_loop client_arm flag_of match_text level_of
spell-next (threads n) h rest c =
    arg_loop-next client_arm (codes "-t") (format_u64 n ∷ rest) c 1 _
      (rw (parse_u64-format_u64 n h) refl)
spell-next (port n) h rest c =
    arg_loop-next client_arm (codes "-p") (format_u64 n ∷ rest) c 1 _ (rw (read_port n h) refl)
spell-next (server v) h rest c = arg_loop-next client_arm (codes "-c") (v ∷ rest) c 1 _ (rw h refl)
spell-next (git_hash v) h rest c = refl
spell-next tls h rest c = refl
spell-next websocket h rest c = refl
spell-next graphs h rest c = refl
spell-next raw_output h rest c = refl
spell-next save_results h rest c = refl
spell-next (level info) h rest c = refl
spell-next (level debug) h rest c = refl
spell-next (level trace) h rest c = refl

-- What the client starts from before it reads its arguments.
abbrev pub file_settings : Bytes → ClientConfig
file_settings content = from_file (parse_config_content content) (file_tls_port content)

module _ (init_logger : LevelFilter → Bool) (best_server : Parsed (Option MeasurementServer)) where
  with_logger-parsed :
      (o : Option LevelFilter) (c : ClientConfig)
      → ((l : LevelFilter) → init_logger l ≡ true)
      → with_logger init_logger best_server o c ≡ parsed c
  with_logger-parsed none c h = refl
  with_logger-parsed (some l) c h = rw (h l) refl

  -- With any configuration file and a logger that can be set up, the options are made in their order,
  -- if one of them names a server; the control server is then not asked.
  pub parse_args-client :
      (content : Bytes) (os : List ClientOption) (address : Bytes)
      → All IsSpelled os
      → ((l : LevelFilter) → init_logger l ≡ true)
      → (apply_all apply_option os (file_settings content)).server ≡ some address
      → parse_args init_logger best_server (spell_all spell os []) (parse_config_content content)
        ≡ parsed (apply_all apply_option os (file_settings content))
  unfolding parse_args then_parsed arg_loop
  parse_args-client content os address h l e =
      rw
        (
          client_starts_from_file content,
          arg_loop-spell_all client_arm spell apply_option IsSpelled spell-next os []
              (file_settings content) h,
          with_logger-parsed (apply_all apply_option os (file_settings content)).log
              (apply_all apply_option os (file_settings content)) l,
          e,
        )
        refl
