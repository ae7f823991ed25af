-- ===== src/Config/Options/Server.antt =====
-- The options of the measurement server (src/mioserver/parser.rs).
use nettest.Common.{ℕ, ◌≤◌, true, List, [], ◌∷◌, ◌++◌, some, Bytes, codes, All, ◌≡◌, refl, arith}
use nettest.Text.{format_u64, max_u64}
use nettest.Text.Decimal.{parse_u64-format_u64}
use nettest.Text.Split.{match_text, max_u16}
use nettest.Config.Ports.{parse_config_content-Starts, parse_listen_address-format_u64}
use nettest.Config.Parser.{parse_config_content}
use nettest.Config.Address.{SocketAddr, v6, unknown_option, parsed, failed, then_parsed}
use nettest.Config.Arguments.{dash_other, flag_of, arg_loop}
use nettest.Config.ServerArgs.{System, ServerConfig, from_file, server_arm, parse_args}
use nettest.Config.Options.{
  spell_all, apply_all, apply_all-fixes, arg_loop-next, arg_loop-fails, arg_loop-spell_all,
}

pub data ServerOption : Type 0 where
  listen_port listen_tls_port workers : ℕ → ServerOption
  certificate key secret : Bytes → ServerOption
  as_daemon registered : ServerOption

abbrev pub spell : ServerOption → List Bytes
spell (listen_port n) = codes "-l" ∷ format_u64 n ∷ []
spell (listen_tls_port n) = codes "-L" ∷ format_u64 n ∷ []
spell (workers n) = codes "-t" ∷ format_u64 n ∷ []
spell (certificate v) = codes "-c" ∷ v ∷ []
spell (key v) = codes "-k" ∷ v ∷ []
spell (secret v) = codes "-e" ∷ v ∷ []
spell as_daemon = codes "-d" ∷ []
spell registered = codes "-register" ∷ []

abbrev any_address : ℕ → SocketAddr
any_address n = record { ip = v6 0; port = n }

abbrev pub apply_option : ServerOption → ServerConfig → ServerConfig
apply_option (listen_port n) c = record c { tcp_address = any_address n }
apply_option (listen_tls_port n) c = record c { tls_address = any_address n }
apply_option (workers n) c = record c { num_workers = some n }
apply_option (certificate v) c = record c { cert_path = some v }
apply_option (key v) c = record c { key_path = some v }
apply_option (secret v) c = record c { secret_key = some v }
apply_option as_daemon c = record c { daemon = true }
apply_option registered c = record c { server_registration = true }

-- Ports and numbers that fit their types.
abbrev pub IsSpelled : ServerOption → Type 0
IsSpelled (listen_port n) = n ≤ max_u16
IsSpelled (listen_tls_port n) = n ≤ max_u16
IsSpelled (workers n) = n ≤ max_u64
IsSpelled _ = Unit

module _ (sys : System) where
  spell-next :
      (o : ServerOption)
      → IsSpelled o
      → (rest : List Bytes) (c : ServerConfig)
      → arg_loop (server_arm sys) 0 (spell o ++ rest) c
        ≡ arg_loop (server_arm sys) 0 rest (apply_option o c)
  unfolding arg_loop server_arm flag_of match_text
  spell-next (listen_port n) h rest c =
      arg_loop-next (server_arm sys) (codes "-l") (format_u64 n ∷ rest) c 1 _
        (rw (parse_listen_address-format_u64 sys.parsers n h) refl)
  spell-next (listen_tls_port n) h rest c =
      arg_loop-next (server_arm sys) (codes "-L") (format_u64 n ∷ rest) c 1 _
        (rw (parse_listen_address-format_u64 sys.parsers n h) refl)
  spell-next (workers n) h rest c =
      arg_loop-next (server_arm sys) (codes "-t") (format_u64 n ∷ rest) c 1 _
        (rw (parse_u64-format_u64 n h) refl)
  spell-next (certificate v) h rest c = refl
  spell-next (key v) h rest c = refl
  spell-next (secret v) h rest c = refl
  spell-next as_daemon h rest c = refl
  spell-next registered h rest c = refl

  apply_option-log_level :
      (o : ServerOption) (c : ServerConfig) → (apply_option o c).log_level ≡ c.log_level
  apply_option-log_level o c = ground arith

  spelled_loop :
      (os : List ServerOption) (rest : List Bytes) (c : ServerConfig)
      → All IsSpelled os
      → arg_loop (server_arm sys) 0 (spell_all spell os rest) c
        ≡ arg_loop (server_arm sys) 0 rest (apply_all apply_option os c)
  spelled_loop = arg_loop-spell_all (server_arm sys) spell apply_option IsSpelled spell-next

  -- What the server starts from before it reads its arguments.
  abbrev pub file_settings : Bytes → ServerConfig
  file_settings content =
      let f = parse_config_content content in
      let s = parse_config_content-Starts sys content in
      from_file f (any_address s.tcp) (any_address s.tls)

  -- With any configuration file, the options behind the program's name are made in their order, so that
  -- a later one wins over an earlier one and over the file.
  pub parse_args-spell_all :
      (content name : Bytes) (os : List ServerOption)
      → All IsSpelled os
      → parse_args sys (name ∷ spell_all spell os []) (parse_config_content content)
        ≡ parsed (apply_all apply_option os (file_settings content))
  unfolding parse_args then_parsed arg_loop
  parse_args-spell_all content name os h =
      rw
        (
          (parse_config_content-Starts sys content).server_starts,
          spelled_loop os [] (file_settings content) h,
          apply_all-fixes apply_option (λ d. d.log_level) apply_option-log_level os
              (file_settings content),
        )
        refl

  -- With any configuration file, the first argument behind options that is no option of a parser ends
  -- the server with an error that names it, whatever follows.
  pub parse_args-unknown :
      (content name : Bytes) (os : List ServerOption) (a : Bytes) (rest : List Bytes)
      → All IsSpelled os
      → flag_of a ≡ dash_other
      → parse_args sys (name ∷ spell_all spell os (a ∷ rest)) (parse_config_content content)
        ≡ failed (unknown_option a)
  unfolding parse_args then_parsed server_arm
  parse_args-unknown content name os a rest h q =
      rw
        (
          (parse_config_content-Starts sys content).server_starts,
          spelled_loop os (a ∷ rest) (file_settings content) h,
          arg_loop-fails (server_arm sys) a rest (apply_all apply_option os (file_settings content))
              (unknown_option a) (rw q refl),
        )
        refl

  abbrev pub with_user : Bytes → ServerConfig → ServerConfig
  with_user user c = record c { user = some user }

  user-next :
      (user x : Bytes) (rest : List Bytes) (c : ServerConfig)
      → sys.is_root ≡ true
      → arg_loop (server_arm sys) 0 (codes "-u" ∷ user ∷ x ∷ rest) c
        ≡ arg_loop (server_arm sys) 0 rest (with_user user c)
  unfolding arg_loop server_arm flag_of match_text
  user-next user x rest c q =
      arg_loop-next (server_arm sys) (codes "-u") (user ∷ x ∷ rest) c 2 (with_user user c)
        (rw q refl)

  -- As root, `-u` takes the user that stands behind it, and the argument behind the user is passed over,
  -- whatever it is: only the options before and behind the three are made.
  pub parse_args-user :
      (content name user x : Bytes) (os later : List ServerOption)
      → All IsSpelled os
      → All IsSpelled later
      → sys.is_root ≡ true
      → parse_args sys
          (name ∷ spell_all spell os (codes "-u" ∷ user ∷ x ∷ spell_all spell later []))
          (parse_config_content content)
        ≡ parsed (
            apply_all apply_option later
              (with_user user (apply_all apply_option os (file_settings content))))
  unfolding parse_args then_parsed arg_loop
  parse_args-user content name user x os later h k q =
      let before = apply_all apply_option os (file_settings content) in
      rw
        (
          (parse_config_content-Starts sys content).server_starts,
          spelled_loop os (codes "-u" ∷ user ∷ x ∷ spell_all spell later []) (file_settings content)
              h,
          user-next user x (spell_all spell later []) before q,
          spelled_loop later [] (with_user user before) k,
          apply_all-fixes apply_option (λ d. d.log_level) apply_option-log_level later
              (with_user user before),
          apply_all-fixes apply_option (λ d. d.log_level) apply_option-log_level os
              (file_settings content),
        )
        refl
