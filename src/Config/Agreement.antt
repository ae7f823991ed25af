-- ===== src/Config/Agreement.antt =====
-- The two servers' command lines side by side (src/mioserver/parser.rs and
-- src/tokio_server/server_config.rs).
use nettest.Common.{
  ℕ, zero, suc, false, List, [], ◌∷◌, Option, none, some, Bytes, ◌≡◌, refl, arith, drop, if_cases,
}
use nettest.Config.{FileConfig}
use nettest.Config.Address.{
  ConfigError, help_printed, Parsed, parsed, failed, panicked, then_parsed, then_unwrapped,
  SocketAddr,
}
use nettest.Config.Arguments.{Flag, flag_of, Turn, next, fails, panics, turn_end, arg_loop}
use nettest.Config.ServerArgs.{System, ServerConfig, from_file, server_arm, with_logger, parse_args}
use nettest.Config.RmbtArgs.{
  RmbtServerConfig, initial_config, rmbt_arm, finish, from_args_vec, from_args,
}
use nettest.Config.ServerArgs

-- The number of threads of the older server: the one asked for, and its default if none is.
abbrev pub IsAsked : Option ℕ → ℕ → Type 0
IsAsked none n = n ≡ 200
IsAsked (some k) n = k ≡ n

-- The settings that the two have in common.
pub record Agrees (c : ServerConfig) (d : RmbtServerConfig) : Type 0 where
  pub cert_path : c.cert_path ≡ d.cert_path
  pub key_path : c.key_path ≡ d.key_path
  pub user : c.user ≡ d.user
  pub daemon : c.daemon ≡ d.daemon
  pub threads : IsAsked c.num_workers d.num_threads

-- A file that sets none of them.
pub record IsBare (f : FileConfig) : Type 0 where
  pub no_cert : f.cert_path ≡ none
  pub no_key : f.key_path ≡ none
  pub no_user : f.user ≡ none
  pub no_daemon : f.daemonize ≡ false
  pub no_workers : f.server_workers ≡ none

-- If both arms go on, they have taken as many arguments and agree.
abbrev BothTurn : Turn ServerConfig → Turn RmbtServerConfig → Type 0
BothTurn (next k c) (next l d) = (k ≡ l) × Agrees c d
BothTurn _ _ = Unit

-- If both parsers accept, they agree.
abbrev pub BothParsed : Parsed ServerConfig → Parsed RmbtServerConfig → Type 0
BothParsed (parsed c) (parsed d) = Agrees c d
BothParsed _ _ = Unit

module _ (sys : System) where
  arms-BothTurn :
      (f : Flag) (a : Bytes) (rest : List Bytes) (c : ServerConfig) (d : RmbtServerConfig)
      → Agrees c d
      → BothTurn (server_arm sys f a rest c) (rmbt_arm sys f a rest d)
  unfolding server_arm rmbt_arm
  arms-BothTurn f a [] c d h = ground arith
  arms-BothTurn f a (v ∷ rest) c d h = ground arith

  turns-BothParsed :
      (t : Turn ServerConfig) (u : Turn RmbtServerConfig) (rest : List Bytes)
      → BothTurn t u
      → ((k : ℕ) (c : ServerConfig) (d : RmbtServerConfig)
          → Agrees c d
          → BothParsed (arg_loop (server_arm sys) k rest c) (arg_loop (rmbt_arm sys) k rest d))
      → BothParsed
          (turn_end t (λ k c. arg_loop (server_arm sys) k rest c))
          (turn_end u (λ k d. arg_loop (rmbt_arm sys) k rest d))
  turns-BothParsed (next k c) (next l d) rest (e, h) later = rw e (later l c d h)
  turns-BothParsed (next k c) (fails e) rest h later = ground arith
  turns-BothParsed (next k c) panics rest h later = ground arith
  turns-BothParsed (fails e) u rest h later = tt
  turns-BothParsed panics u rest h later = tt

  loops-BothParsed :
      (args : List Bytes) (k : ℕ) (c : ServerConfig) (d : RmbtServerConfig)
      → Agrees c d
      → BothParsed (arg_loop (server_arm sys) k args c) (arg_loop (rmbt_arm sys) k args d)
  unfolding arg_loop
  loops-BothParsed [] k c d h = h
  loops-BothParsed (a ∷ rest) (suc k) c d h = loops-BothParsed rest k c d h
  loops-BothParsed (a ∷ rest) zero c d h =
      turns-BothParsed (server_arm sys (flag_of a) a rest c) (rmbt_arm sys (flag_of a) a rest d)
        rest (arms-BothTurn (flag_of a) a rest c d h) (λ k c d. loops-BothParsed rest k c d)

  -- What stands behind the older server's loop leaves the common settings alone.
  finish-BothParsed :
      (c : ServerConfig) (d : RmbtServerConfig) → Agrees c d → BothParsed (parsed c) (finish sys d)
  unfolding finish then_parsed then_unwrapped
  finish-BothParsed c d h = ground arith

  failed-BothParsed : (p : Parsed ServerConfig) (e : ConfigError) → BothParsed p (failed e)
  failed-BothParsed p e = ground arith

  ends-BothParsed :
      (p : Parsed ServerConfig) (q : Parsed RmbtServerConfig)
      → BothParsed p q
      → BothParsed (then_parsed p (λ c. with_logger sys c.log_level c)) (then_parsed q (finish sys))
  unfolding then_parsed
  ends-BothParsed (parsed c) (parsed d) h =
      elim c.log_level as (λ l. BothParsed (with_logger sys l c) (finish sys d)) [
        | none ↦ finish-BothParsed c d h
        | some l ↦
            if_cases (λ p. BothParsed p (finish sys d)) (sys.init_logger l)
              (λ e. finish-BothParsed c d h) (λ e. tt)
      ]
  ends-BothParsed (parsed c) (failed e) h = failed-BothParsed (with_logger sys c.log_level c) e
  ends-BothParsed (parsed c) panicked h = ground arith
  ends-BothParsed (failed e) q h = tt
  ends-BothParsed panicked q h = tt

  -- The servers behind their command lines, whatever the first two addresses come to.
  starts-BothParsed :
      (args : List Bytes) (f : FileConfig) (a b : Parsed SocketAddr)
      → IsBare f
      → BothParsed
          (then_parsed
            (then_unwrapped a (λ tcp. then_unwrapped b (λ tls. parsed (from_file f tcp tls))))
            (λ c.
              then_parsed
                (arg_loop (server_arm sys) 0 (drop 1 args) c)
                (λ d. with_logger sys d.log_level d)))
          (from_args_vec sys args)
  unfolding then_parsed then_unwrapped from_args_vec
  starts-BothParsed args f (parsed tcp) (parsed tls) h =
      ends-BothParsed (arg_loop (server_arm sys) 0 (drop 1 args) (from_file f tcp tls)) _ (
        loops-BothParsed (drop 1 args) 0 (from_file f tcp tls) initial_config (record {
          cert_path = h.no_cert;
          key_path = h.no_key;
          user = h.no_user;
          daemon = h.no_daemon;
          threads = rw h.no_workers refl;
        }))
  starts-BothParsed args f (failed e) b h = tt
  starts-BothParsed args f panicked b h = tt
  starts-BothParsed args f (parsed tcp) (failed e) h = tt
  starts-BothParsed args f (parsed tcp) panicked h = tt

  both-BothParsed :
      (args : List Bytes) (f : FileConfig)
      → IsBare f
      → BothParsed (parse_args sys args f) (from_args sys args)
  unfolding parse_args from_args ServerArgs.initial_config
  both-BothParsed args f h =
      if_cases (λ q. BothParsed (parse_args sys args f) q) _
        (λ e. failed-BothParsed (parse_args sys args f) help_printed)
        (λ e. starts-BothParsed args f _ _ h)

  -- With a file that leaves the common settings at their defaults, whenever both servers accept the same
  -- arguments they agree on the certificate, the key, the user, the daemon flag and the number of
  -- threads, if the arguments give one; if they give none, the older server takes 200, and the
  -- server is left without one.
  pub parse_args-Agrees :
      (args : List Bytes) (f : FileConfig) (c : ServerConfig) (d : RmbtServerConfig)
      → IsBare f
      → parse_args sys args f ≡ parsed c
      → from_args sys args ≡ parsed d
      → Agrees c d
  parse_args-Agrees args f c d h p q = rw (p, q) at (both-BothParsed args f h)
