-- ===== src/Config/RoundTrip.antt =====
-- Reading back a configuration file that was written from settings.
use nettest.Common.{
  ◌<◌, ◌==◌, ℕ, [], ◌∷◌, List, ◌++◌, true, false, some, Bytes, ◌≡◌, ◌≢◌, refl, sym, ap, ◌∙◌, arith,
  All, append_assoc,
}
use nettest.Text.{format_u64, split_terminator, trim, is_space}
use nettest.Text.Decimal.{IsDigit, format_u64-All, parse_u64-format_u64}
use nettest.Text.Words.{IsInWord, trim-ends, trim-word_space, trim_space, trim-cons, trim_nil}
use nettest.Text.Lines.{
  IsInLine, All-append, digits-IsInLine, split_terminator-append, split_terminator_nil,
}
use nettest.Text.Split.{split_once, max_u16, max_u32, parse_bool, match_text}
use nettest.Text.Split.Laws.{
  Without, split_once-append, trim_matches-quoted, trim_matches-Without, parse_upto-format_u64,
}
use nettest.Config.{FileConfig, file_config_default, server, client}
use nettest.Config.Parser.{
  key_of, port_or, level_of, set_key, set_line, set_lines, parse_config_content,
}
use nettest.Config.Settings.{
  Setting, set_mode, set_tcp_port, set_tls_port, set_workers, set_protocol_version, set_cert_path,
  set_key_path, set_user, set_hostname, set_x_nettest_client, set_control_server, set_client_uuid,
  set_daemonize, set_websocket, set_client_tls, set_client_websocket, set_registration, set_level,
  Line, setting, comment, blank, key_name, key_set, value_text, line_text, file_text, apply_setting,
  apply_lines, IsQuotable, IsWritable, IsWritableLine, info, debug, trace,
}

-- The bytes of a key.
abbrev IsKeyByte : ℕ → Type 0
IsKeyByte c = IsInWord c × (c ≢ b'=') × (c ≢ b'#')

word_key : (p : Bytes) → All IsKeyByte p → All IsInWord p
word_key [] h = tt
word_key (c ∷ p) h = (h.0.0, word_key p h.1)

key-Without : (p : Bytes) → All IsKeyByte p → Without b'=' (p ++ b' ' ∷ [])
key-Without [] h = (omega arith, tt)
key-Without (c ∷ p) h = (h.0.1, key-Without p h.1)

abbrev quoted : Bytes → Bytes
quoted v = b'"' ∷ (v ++ b'"' ∷ [])

trim-quoted : (v : Bytes) → trim (b' ' ∷ quoted v) ≡ quoted v
unfolding is_space
trim-quoted v = trim_space b' ' (quoted v) refl ∙ trim-ends b'"' v b'"' refl refl

trim-setting :
    (c : ℕ) (p v : Bytes)
    → is_space c ≡ false
    → trim (c ∷ (p ++ (b' ' ∷ b'=' ∷ b' ' ∷ quoted v))) ≡ c ∷ (p ++ (b' ' ∷ b'=' ∷ b' ' ∷ quoted v))
unfolding is_space
trim-setting c p v e =
    let regroup : (p ++ (b' ' ∷ b'=' ∷ b' ' ∷ b'"' ∷ v)) ++ b'"' ∷ []
        ≡ p ++ (b' ' ∷ b'=' ∷ b' ' ∷ quoted v) =
      append_assoc p (b' ' ∷ b'=' ∷ b' ' ∷ b'"' ∷ v) (b'"' ∷ []) in
    ap trim (ap (λ (t : Bytes). c ∷ t) (sym regroup))
    ∙ (trim-ends c (p ++ (b' ' ∷ b'=' ∷ b' ' ∷ b'"' ∷ v)) b'"' e refl
        ∙ ap (λ (t : Bytes). c ∷ t) regroup)

-- A line `key = "value"` runs the key's arm with the value.
set_line-setting :
    (p v : Bytes) (c : FileConfig)
    → p ≢ []
    → All IsKeyByte p
    → Without b'"' v
    → set_line (p ++ (b' ' ∷ b'=' ∷ b' ' ∷ quoted v)) c ≡ set_key (key_of p) v c
unfolding set_line is_space
set_line-setting [] v c n h q = absurd (n refl)
set_line-setting (d ∷ p) v c n h q =
    let no_mark : (b'#' == d) ≡ false = ground (arith, h.0.2) in
    let regroup : (d ∷ p) ++ (b' ' ∷ b'=' ∷ b' ' ∷ quoted v)
        ≡ ((d ∷ p) ++ b' ' ∷ []) ++ b'=' ∷ b' ' ∷ quoted v =
      sym (append_assoc (d ∷ p) (b' ' ∷ []) (b'=' ∷ b' ' ∷ quoted v)) in
    let found : split_once b'=' ((d ∷ p) ++ (b' ' ∷ b'=' ∷ b' ' ∷ quoted v))
        ≡ some ((d ∷ p) ++ b' ' ∷ [], b' ' ∷ quoted v) =
      ap (split_once b'=') regroup
      ∙ split_once-append b'=' ((d ∷ p) ++ b' ' ∷ []) (b' ' ∷ quoted v) (key-Without (d ∷ p) h) in
    rw
      (
        trim-setting d p v h.0.0,
        no_mark,
        found,
        trim-word_space (d ∷ p) b' ' (word_key (d ∷ p) h) refl,
        trim-quoted v,
        trim_matches-quoted b'"' v q,
      )
      refl

-- What a key's arm does with the text of a setting's value.
set_key-apply_setting :
    (s : Setting) (c : FileConfig)
    → IsWritable s
    → set_key (key_set s) (value_text s) c ≡ apply_setting s c
unfolding set_key port_or level_of parse_bool match_text
set_key-apply_setting (set_mode server) c h = refl
set_key-apply_setting (set_mode client) c h = refl
set_key-apply_setting (set_tcp_port n) c h =
    rw (parse_upto-format_u64 max_u16 n h (omega arith)) refl
set_key-apply_setting (set_tls_port n) c h =
    rw (parse_upto-format_u64 max_u16 n h (omega arith)) refl
set_key-apply_setting (set_workers n) c h = rw (parse_u64-format_u64 n h) refl
set_key-apply_setting (set_protocol_version n) c h =
    rw (parse_upto-format_u64 max_u32 n h (omega arith)) refl
set_key-apply_setting (set_cert_path v) c h = refl
set_key-apply_setting (set_key_path v) c h = refl
set_key-apply_setting (set_user v) c h = refl
set_key-apply_setting (set_hostname v) c h = refl
set_key-apply_setting (set_x_nettest_client v) c h = refl
set_key-apply_setting (set_control_server v) c h = refl
set_key-apply_setting (set_client_uuid []) c h = absurd (h.1 refl)
set_key-apply_setting (set_client_uuid (b ∷ v)) c h =
    rw (trim_matches-Without b'"' (b ∷ v) h.0.no_quote, h.2) refl
set_key-apply_setting (set_daemonize true) c h = refl
set_key-apply_setting (set_daemonize false) c h = refl
set_key-apply_setting (set_websocket true) c h = refl
set_key-apply_setting (set_websocket false) c h = refl
set_key-apply_setting (set_client_tls true) c h = refl
set_key-apply_setting (set_client_tls false) c h = refl
set_key-apply_setting (set_client_websocket true) c h = refl
set_key-apply_setting (set_client_websocket false) c h = refl
set_key-apply_setting (set_registration true) c h = refl
set_key-apply_setting (set_registration false) c h = refl
set_key-apply_setting (set_level info) c h = refl
set_key-apply_setting (set_level debug) c h = refl
set_key-apply_setting (set_level trace) c h = refl

key_name-All : (s : Setting) → All IsKeyByte (key_name (key_set s))
unfolding is_space
key_name-All s = ground arith

key_name-ne-nil : (s : Setting) → key_name (key_set s) ≢ []
key_name-ne-nil s = ground arith

key_of-key_name : (s : Setting) → key_of (key_name (key_set s)) ≡ key_set s
unfolding key_of match_text
key_of-key_name s = ground arith

digits-IsQuotable : (n : ℕ) → IsQuotable (format_u64 n)
digits-IsQuotable n = record {
  no_quote = below b'"' (format_u64 n) (omega arith) (format_u64-All n);
  one_line = digits-IsInLine (format_u64 n) (format_u64-All n);
}
  where
    below : (k : ℕ) (s : Bytes) → k < b'0' → All IsDigit s → Without k s
    below k [] lt h = tt
    below k (c ∷ s) lt h = (omega arith, below k s lt h.1)

text-IsQuotable : (s : Setting) → IsWritable s → IsQuotable (value_text s)
text-IsQuotable (set_tcp_port n) h = digits-IsQuotable n
text-IsQuotable (set_tls_port n) h = digits-IsQuotable n
text-IsQuotable (set_workers n) h = digits-IsQuotable n
text-IsQuotable (set_protocol_version n) h = digits-IsQuotable n
text-IsQuotable (set_cert_path v) h = h
text-IsQuotable (set_key_path v) h = h
text-IsQuotable (set_user v) h = h
text-IsQuotable (set_hostname v) h = h
text-IsQuotable (set_x_nettest_client v) h = h
text-IsQuotable (set_control_server v) h = h
text-IsQuotable (set_client_uuid v) h = h.0
text-IsQuotable (set_mode m) h = record { no_quote = ground arith; one_line = ground arith }
text-IsQuotable (set_daemonize b) h = record { no_quote = ground arith; one_line = ground arith }
text-IsQuotable (set_websocket b) h = record { no_quote = ground arith; one_line = ground arith }
text-IsQuotable (set_client_tls b) h = record { no_quote = ground arith; one_line = ground arith }
text-IsQuotable (set_client_websocket b) h = record {
  no_quote = ground arith;
  one_line = ground arith;
}
text-IsQuotable (set_registration b) h = record { no_quote = ground arith; one_line = ground arith }
text-IsQuotable (set_level l) h = record { no_quote = ground arith; one_line = ground arith }

key_name-IsInLine : (s : Setting) → All IsInLine (key_name (key_set s))
key_name-IsInLine s = ground arith

line_text-IsInLine : (l : Line) → IsWritableLine l → All IsInLine (line_text l)
line_text-IsInLine (setting s) h =
    let value =
      All-append (value_text s) (b'"' ∷ []) (text-IsQuotable s h).one_line (omega arith, tt) in
    All-append (key_name (key_set s)) _ (key_name-IsInLine s)
      (omega arith, (omega arith, (omega arith, (omega arith, value))))
line_text-IsInLine (comment t) h = (omega arith, h)
line_text-IsInLine blank h = tt

set_line-comment : (t : Bytes) (c : FileConfig) → set_line (b'#' ∷ t) c ≡ c
unfolding set_line is_space
set_line-comment t c = let (r, e) = trim-cons b'#' t refl in rw e refl

-- A line does to the settings what it means.
set_line-apply :
    (l : Line) (ls : List Line) (c : FileConfig)
    → IsWritableLine l
    → apply_lines ls (set_line (line_text l) c) ≡ apply_lines (l ∷ ls) c
unfolding apply_lines set_line
set_line-apply (setting s) ls c h =
    let run =
      set_line-setting (key_name (key_set s)) (value_text s) c (key_name-ne-nil s) (key_name-All s)
        (text-IsQuotable s h).no_quote in
    ap (apply_lines ls) (
      run
      ∙ (ap (λ k. set_key k (value_text s) c) (key_of-key_name s) ∙ set_key-apply_setting s c h))
set_line-apply (comment t) ls c h = ap (apply_lines ls) (set_line-comment t c)
set_line-apply blank ls c h = rw trim_nil refl

set_lines-file_text :
    (ls : List Line) (c : FileConfig)
    → All IsWritableLine ls
    → set_lines (split_terminator (file_text ls)) c ≡ apply_lines ls c
unfolding set_lines file_text apply_lines
set_lines-file_text [] c h = rw split_terminator_nil refl
set_lines-file_text (l ∷ ls) c h =
    rw (split_terminator-append (line_text l) (file_text ls) (line_text-IsInLine l h.0))
      (set_lines-file_text ls (set_line (line_text l) c) h.1 ∙ set_line-apply l ls c h.0)

-- A file of settings, comments and empty lines, each setting as `key = "value"`, is read back as the
-- defaults with the settings made in their order, so that a later one wins: if the numbers fit their
-- types, the texts hold no quote and no newline, and a client's id is not empty and has no space at its
-- ends.
pub parse_config_content-file_text :
    (ls : List Line)
    → All IsWritableLine ls
    → parse_config_content (file_text ls) ≡ apply_lines ls file_config_default
unfolding parse_config_content
parse_config_content-file_text ls h = set_lines-file_text ls file_config_default h
