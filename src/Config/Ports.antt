-- ===== src/Config/Ports.antt =====
-- The ports of a configuration file, and the addresses that the server and the client start from.
use nettest.Common.{
  ℕ, ◌≤◌, [], ◌∷◌, List, some, none, Option, Bytes, codes, ◌≡◌, ◌≢◌, refl, arith, ◌==◌, All, inl,
  if_cases, false, inr, Option-cases,
}
use nettest.Text.{format_u64, split_terminator, trim}
use nettest.Text.Decimal.{IsDigit, format_u64-All, format_u64-ne-nil}
use nettest.Text.Split.{parse_upto, max_u16, split_once}
use nettest.Text.Split.Laws.{split_once-none, digits-Without, parse_upto-format_u64, parse_upto-le}
use nettest.Config.{FileConfig, file_config_default}
use nettest.Config.Parser.{
  Key, key_server_tcp_port, key_server_tls_port, key_of, port_or, set_key, set_pair, set_line,
  set_lines, parse_config_content,
}
use nettest.Config.Address.{v6, IpParsers, parsed, then_unwrapped, parse_listen_address}
use nettest.Config.ServerArgs
use nettest.Config.ClientArgs

-- A text that is the print of a port.
pub record IsPort (s : Bytes) : Type 0 where
  pub port : ℕ
  pub bound : port ≤ max_u16
  pub printed : s ≡ format_u64 port

abbrev pub IsPort? : Option Bytes → Type 0
IsPort? none = Unit
IsPort? (some s) = IsPort s

-- What the file's two ports are.
pub record HasPorts (c : FileConfig) : Type 0 where
  pub tcp : IsPort c.server_tcp_port
  pub tls : IsPort? c.server_tls_port

port_or-IsPort : (d value : Bytes) → IsPort d → IsPort (port_or d value)
unfolding port_or
port_or-IsPort d value h = elim (Option-cases (parse_upto max_u16 value)) [
  | inl e ↦ rw e h
  | inr (n, e) ↦ rw e (record { port = n; bound = parse_upto-le max_u16 n value e; printed = refl })
]

default_port : IsPort (codes "5005")
unfolding format_u64
default_port = record { port = 5005; bound = omega arith; printed = refl }

default_tls_port : IsPort (codes "443")
unfolding format_u64
default_tls_port = record { port = 443; bound = omega arith; printed = refl }

set_key-HasPorts : (k : Key) (v : Bytes) (c : FileConfig) → HasPorts c → HasPorts (set_key k v c)
unfolding set_key
set_key-HasPorts key_server_tcp_port v c h = record {
  tcp = port_or-IsPort (codes "5005") v default_port;
  tls = h.tls;
}
set_key-HasPorts key_server_tls_port v c h = record {
  tcp = h.tcp;
  tls = port_or-IsPort (codes "443") v default_tls_port;
}
set_key-HasPorts _ v c h = record { tcp = h.tcp; tls = h.tls }

set_pair-HasPorts :
    (p : Option (Bytes × Bytes)) (c : FileConfig) → HasPorts c → HasPorts (set_pair p c)
set_pair-HasPorts none c h = h
set_pair-HasPorts (some (key, value)) c h = set_key-HasPorts (key_of (trim key)) _ c h

set_line-HasPorts : (line : Bytes) (c : FileConfig) → HasPorts c → HasPorts (set_line line c)
unfolding set_line
set_line-HasPorts line c h =
    if_cases HasPorts _ (λ e. h) (λ e. set_pair-HasPorts (split_once b'=' (trim line)) c h)

set_lines-HasPorts :
    (lines : List Bytes) (c : FileConfig) → HasPorts c → HasPorts (set_lines lines c)
unfolding set_lines
set_lines-HasPorts [] c h = h
set_lines-HasPorts (line ∷ rest) c h = set_lines-HasPorts rest _ (set_line-HasPorts line c h)

pub parse_config_content-HasPorts : (content : Bytes) → HasPorts (parse_config_content content)
unfolding parse_config_content
parse_config_content-HasPorts content =
    set_lines-HasPorts (split_terminator content) file_config_default
      (record { tcp = default_port; tls = tt })

pub read_port : (n : ℕ) → n ≤ max_u16 → parse_upto max_u16 (format_u64 n) ≡ some n
read_port n h = parse_upto-format_u64 max_u16 n h (omega arith)

parse_port :
    (parsers : IpParsers) (s : Bytes)
    → s ≢ []
    → All IsDigit s
    → (n : ℕ) → parse_upto max_u16 s ≡ some n
    → parse_listen_address parsers s ≡ parsed (record { ip = v6 0; port = n })
unfolding parse_listen_address
parse_port parsers [] ne h n e = absurd (ne refl)
parse_port parsers (c ∷ s) ne h n e =
    let no_colon : split_once b':' (c ∷ s) ≡ none =
      split_once-none b':' (c ∷ s) (digits-Without b':' (c ∷ s) (omega arith) h) in
    let no_bracket : (c == b'[') ≡ false = ground arith in rw (no_bracket, no_colon, e) refl

-- A port alone is an address to listen on.
pub parse_listen_address-format_u64 :
    (parsers : IpParsers) (n : ℕ)
    → n ≤ max_u16
    → parse_listen_address parsers (format_u64 n) ≡ parsed (record { ip = v6 0; port = n })
parse_listen_address-format_u64 parsers n h =
    parse_port parsers (format_u64 n) (format_u64-ne-nil n) (format_u64-All n) n (read_port n h)

-- Both programs start from the settings, with the same two ports.
pub record Starts (sys : ServerArgs.System) (f : FileConfig) : Type 0 where
  pub tcp : ℕ
  pub tls : ℕ
  pub tcp_bound : tcp ≤ max_u16
  pub tls_bound : tls ≤ max_u16
  pub server_starts :
      ServerArgs.initial_config sys f
      ≡ parsed (
          ServerArgs.from_file f
            (record { ip = v6 0; port = tcp })
            (record { ip = v6 0; port = tls }))
  pub client_starts : ClientArgs.initial_config f ≡ parsed (ClientArgs.from_file f tls)
  pub tcp_text : f.server_tcp_port ≡ format_u64 tcp
  pub tls_text : ServerArgs.or_text (codes "443") f.server_tls_port ≡ format_u64 tls
  pub server_tcp :
      (ServerArgs.from_file f
        (record { ip = v6 0; port = tcp })
        (record { ip = v6 0; port = tls })).tcp_address
      ≡ record { ip = v6 0; port = tcp }
  pub server_tls :
      (ServerArgs.from_file f
        (record { ip = v6 0; port = tcp })
        (record { ip = v6 0; port = tls })).tls_address
      ≡ record { ip = v6 0; port = tls }
  pub client_port : (ClientArgs.from_file f tls).port ≡ tcp
  pub client_tls_port : (ClientArgs.from_file f tls).tls_port ≡ tls

or_text-IsPort : (o : Option Bytes) → IsPort? o → IsPort (ServerArgs.or_text (codes "443") o)
or_text-IsPort none h = default_tls_port
or_text-IsPort (some s) h = h

pub tls_port :
    (f : FileConfig) → HasPorts f → IsPort (ServerArgs.or_text (codes "443") f.server_tls_port)
tls_port f h = or_text-IsPort f.server_tls_port h.tls

client_parsed :
    (f : FileConfig) (h : HasPorts f)
    → ClientArgs.initial_config f ≡ parsed (ClientArgs.from_file f (tls_port f h).port)
unfolding ClientArgs.initial_config then_unwrapped
client_parsed f h = let p = tls_port f h in rw (p.printed, read_port p.port p.bound) refl

HasPorts-Starts : (sys : ServerArgs.System) (f : FileConfig) → HasPorts f → Starts sys f
unfolding ServerArgs.initial_config ClientArgs.initial_config then_unwrapped
HasPorts-Starts sys f h = record {
  tcp = h.tcp.port;
  tls = tls.port;
  tcp_bound = h.tcp.bound;
  tls_bound = tls.bound;
  server_starts =
      rw (h.tcp.printed, tls.printed)
        (rw
          (
            parse_listen_address-format_u64 sys.parsers h.tcp.port h.tcp.bound,
            parse_listen_address-format_u64 sys.parsers tls.port tls.bound,
          )
          refl);
  client_starts = client_parsed f h;
  tcp_text = h.tcp.printed;
  tls_text = tls.printed;
  server_tcp = refl;
  server_tls = refl;
  client_tls_port = refl;
  client_port = rw (h.tcp.printed, read_port h.tcp.port h.tcp.bound) refl;
}
  where
    tls : IsPort (ServerArgs.or_text (codes "443") f.server_tls_port)
    tls = tls_port f h

pub parse_config_content-Starts :
    (sys : ServerArgs.System) (content : Bytes) → Starts sys (parse_config_content content)
parse_config_content-Starts sys content =
    HasPorts-Starts sys (parse_config_content content) (parse_config_content-HasPorts content)

-- The port for TLS that a file sets, or the default.
abbrev pub file_tls_port : Bytes → ℕ
file_tls_port content =
    (tls_port (parse_config_content content) (parse_config_content-HasPorts content)).port

pub client_starts_from_file :
    (content : Bytes)
    → ClientArgs.initial_config (parse_config_content content)
      ≡ parsed (ClientArgs.from_file (parse_config_content content) (file_tls_port content))
client_starts_from_file content =
    client_parsed (parse_config_content content) (parse_config_content-HasPorts content)
