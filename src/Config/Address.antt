-- ===== src/Config/Address.antt =====
-- Addresses to listen on (`parse_listen_address` of src/tokio_server/server_config.rs), and what both
-- the address and the command line can come to.
use nettest.Common.{ℕ, [], ◌∷◌, ◌==◌, if◌then◌else◌, Option, none, some, Bytes}
use nettest.Text.Split.{split_once, parse_upto, max_u16}

-- Why a text or a command line is refused.
pub data ConfigError : Type 0 where
  bad_ip bad_port invalid_ipv6 invalid_address bad_number help_printed not_root : ConfigError
  no_threads bad_version bad_level no_server no_daemon no_logger : ConfigError
  unknown_option only_one : Bytes → ConfigError

-- `Result`, or a panic of the program.
pub data Parsed {ℓ} (A : Type ℓ) : Type ℓ where
  parsed : A → Parsed A
  failed : ConfigError → Parsed A
  panicked : Parsed A

-- `e?`, and `e.unwrap()`.
unfoldable pub then_parsed {ℓ κ} : {A : Type ℓ} {B : Type κ} → Parsed A → (A → Parsed B) → Parsed B
then_parsed (parsed a) k = k a
then_parsed (failed e) k = failed e
then_parsed panicked k = panicked

unfoldable pub then_unwrapped {ℓ κ} :
    {A : Type ℓ} {B : Type κ} → Parsed A → (A → Parsed B) → Parsed B
then_unwrapped (parsed a) k = k a
then_unwrapped (failed e) k = panicked
then_unwrapped panicked k = panicked

abbrev pub or_error {ℓ} : {A : Type ℓ} → ConfigError → Option A → Parsed A
or_error e none = failed e
or_error e (some a) = parsed a

-- `std::net::IpAddr`, by the number that the address is.
pub data IpAddr : Type 0 where
  v4 v6 : ℕ → IpAddr

pub record SocketAddr : Type 0 where
  pub ip : IpAddr
  pub port : ℕ

-- `parse::<Ipv4Addr>()` and `parse::<Ipv6Addr>()`.
pub record IpParsers : Type 0 where
  pub parse_ipv4 : Bytes → Option ℕ
  pub parse_ipv6 : Bytes → Option ℕ

-- The text before the last occurrence of a character, and behind it (`rfind`).
abbrev prefer : ℕ → Option (Bytes × Bytes) → Option (Bytes × Bytes) → Option (Bytes × Bytes)
prefer c none here = here
prefer c (some (a, b)) here = some (c ∷ a, b)

unfoldable pub split_last : ℕ → Bytes → Option (Bytes × Bytes)
split_last k [] = none
split_last k (c ∷ s) = prefer c (split_last k s) (if c == k then some ([], s) else none)

module _ (parsers : IpParsers) where
  abbrev socket : IpAddr → Parsed ℕ → Parsed SocketAddr
  socket a p = then_parsed p (λ port. parsed (record { ip = a; port = port }))

  abbrev port_of : Bytes → Parsed ℕ
  port_of s = or_error bad_port (parse_upto max_u16 s)

  -- `[::1]:8080`, behind the bracket: the text between the brackets, and `:` with the port.
  abbrev pub bracketed : Option (Bytes × Bytes) → Parsed SocketAddr
  bracketed none = failed invalid_ipv6
  bracketed (some (ip, [])) = failed invalid_ipv6
  bracketed (some (ip, c ∷ port)) =
      if c == b':'
      then then_parsed (or_error bad_ip (parsers.parse_ipv6 ip)) (λ a. socket (v6 a) (port_of port))
      else failed invalid_ipv6

  -- A port alone listens on `::`.
  abbrev port_only : Option ℕ → Parsed SocketAddr
  port_only none = failed invalid_address
  port_only (some port) = parsed (record { ip = v6 0; port = port })

  abbrev pub unbracketed : Bytes → Option (Bytes × Bytes) → Parsed SocketAddr
  unbracketed s none = port_only (parse_upto max_u16 s)
  unbracketed s (some (ip, port)) =
      then_parsed (or_error bad_ip (parsers.parse_ipv4 ip)) (λ a. socket (v4 a) (port_of port))

  unfoldable pub parse_listen_address : Bytes → Parsed SocketAddr
  parse_listen_address [] = failed invalid_address
  parse_listen_address (c ∷ s) =
      if c == b'['
      then bracketed (split_last b']' s)
      else unbracketed (c ∷ s) (split_once b':' (c ∷ s))
