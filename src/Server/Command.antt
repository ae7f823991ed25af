-- ===== src/Server/Command.antt =====
-- The main loop's prompt and the command that answers it (src/mioserver/handlers/common.rs).
pub mod Sizes
pub mod Unknown
use nettest.Common.{
  ℕ, ◌+◌, Bool, ◌&&◌, List, [], ◌∷◌, ◌==◌, leb, if◌then◌else◌, Option, none, some, Bytes, length,
  take, drop, codes, ends_at, starts_with, contains,
}
use nettest.Net.{
  Outcome, Reader, Flow, ok, err, panic, again, stop, ignored, readable, writable, write_loop,
  read_loop, other,
}
use nettest.Server.{
  TestState, enter, fill, write_to, read_to, min_chunk_size, max_chunk_size, accept_command_receive,
  get_chunk_send_chunk, pong_send, get_time_send_chunk, put_no_result_send_ok,
  put_time_result_send_ok, put_send_ok,
}
use nettest.Text.{words, trim, split_terminator, parse_u64}

abbrev pub accept_commands : Bytes
accept_commands = codes "ACCEPT GETCHUNKS GETTIME PUT PUTNORESULT PING QUIT\n"

unfoldable pub handle_main_command_send : TestState → Outcome TestState
handle_main_command_send s0 =
    let s = fill accept_commands s0 in
    write_to ignored s.write_buffer (length accept_commands) s
      (λ n t. enter accept_command_receive readable n (record t { write_pos = 0; read_pos = 0 }))

abbrev pub in_range : ℕ → Bool
in_range size = leb min_chunk_size size && leb size max_chunk_size

abbrev pub size_in_range : Option ℕ → Option ℕ
size_in_range none = none
size_in_range (some size) = if in_range size then some size else none

-- The size behind a command's first argument: `MIN_CHUNK_SIZE` if there is none.
unfoldable pub size_argument : List Bytes → Option ℕ
unfolding parse_u64
size_argument [] = some min_chunk_size
size_argument (p ∷ []) = some min_chunk_size
size_argument (p ∷ q ∷ ps) = size_in_range (parse_u64 q)

-- Takes up the size, or is `Err(Other, "Invalid command")`.
abbrev pub with_size : Option ℕ → TestState → (ℕ → Outcome TestState) → Outcome TestState
with_size none s k = err other s
with_size (some size) s k = k size

abbrev pub or_size : Option ℕ → ℕ → ℕ
or_size none d = d
or_size (some size) d = size

abbrev pub last_line : List Bytes → Option Bytes
last_line [] = none
last_line (l ∷ []) = some l
last_line (l ∷ m ∷ ls) = last_line (m ∷ ls)

-- The arguments behind the first `k` bytes of a line. A line that is shorter is a panic.
unfoldable pub arguments : ℕ → Bytes → Option (List Bytes)
unfolding words trim
arguments k line = if leb k (length line) then some (words (trim (drop k line))) else none

unfoldable pub get_chunks_arguments : ℕ → Option (List Bytes) → TestState → Outcome TestState
unfolding parse_u64 size_argument
get_chunks_arguments n none s = panic s
get_chunks_arguments n (some []) s = panic s
get_chunks_arguments n (some (p ∷ ps)) s = with_size (parse_u64 p) s (λ num.
    with_size (size_argument (p ∷ ps)) s (λ size.
      enter get_chunk_send_chunk writable n
        (record s { num_chunks = num; chunk_size = size; read_pos = 0 })))

unfoldable pub get_chunks_line : ℕ → Option Bytes → TestState → Outcome TestState
unfolding get_chunks_arguments arguments
get_chunks_line n none s = panic s
get_chunks_line n (some line) s = get_chunks_arguments n (arguments 9 line) s

-- The duration is stored before the size is read.
unfoldable pub get_time_arguments : ℕ → Option (List Bytes) → TestState → Outcome TestState
unfolding parse_u64 size_argument
get_time_arguments n none s = panic s
get_time_arguments n (some []) s = panic s
get_time_arguments n (some (p ∷ ps)) s0 = with_size (parse_u64 p) s0 (λ d.
    let s = record s0 { duration = d } in
    with_size (size_argument (p ∷ ps)) s
      (λ size. enter get_time_send_chunk writable n (record s { chunk_size = size; read_pos = 0 })))

-- A size that is refused leaves `chunk_size` as it was.
unfoldable pub put_no_result : ℕ → List Bytes → TestState → Outcome TestState
unfolding parse_u64
put_no_result n (_ ∷ q ∷ []) s =
    enter put_no_result_send_ok writable n
      (record s { chunk_size = or_size (size_in_range (parse_u64 q)) s.chunk_size; read_pos = 0 })
put_no_result n (_ ∷ _ ∷ _ ∷ _) s = err other s
put_no_result n _ s =
    enter put_no_result_send_ok writable n (record s { chunk_size = min_chunk_size; read_pos = 0 })

-- `parts[1]` panics if there is no argument.
unfoldable pub put_time_result : ℕ → List Bytes → TestState → Outcome TestState
unfolding parse_u64
put_time_result n (_ ∷ q ∷ _) s =
    enter put_time_result_send_ok writable n
      (record s { chunk_size = or_size (size_in_range (parse_u64 q)) min_chunk_size; read_pos = 0 })
put_time_result n _ s =
    panic (record s { read_pos = 0; measurement_state = put_time_result_send_ok })

unfoldable pub put : ℕ → List Bytes → TestState → Outcome TestState
unfolding parse_u64
put n (_ ∷ q ∷ []) s =
    enter put_send_ok writable n
      (record s { chunk_size = or_size (size_in_range (parse_u64 q)) min_chunk_size; read_pos = 0 })
put n (_ ∷ _ ∷ _ ∷ _) s = err other s
put n _ s = enter put_send_ok writable n (record s { chunk_size = min_chunk_size; read_pos = 0 })

-- What the complete line does: the commands are tested in the source's order.
unfoldable pub command : Bytes → ℕ → TestState → Outcome TestState
command line n s =
    if contains (codes "GETCHUNKS") line
    then get_chunks_line n (last_line (split_terminator line)) s
    else if starts_with (codes "PING\n") line
    then enter pong_send writable n (record s { read_pos = 0 })
    else if starts_with (codes "GETTIME") line
    then get_time_arguments n (arguments 7 line) s
    else if starts_with (codes "PUTNORESULT") line
    then put_no_result n (words line) s
    else if starts_with (codes "PUTTIMERESULT") line
    then put_time_result n (words line) s
    else if starts_with (codes "PUT") line
    then put n (words line) s
    else ok n (record s { measurement_state = accept_command_receive })

unfoldable pub until_line : ℕ → Reader → Flow Reader
until_line n r =
    let moved = record r { pos = r.pos + n } in
    if n == 0
    then stop (ok 0 moved)
    else if ends_at (codes "\n") moved.buffer moved.pos
    then stop (ok n moved)
    else again moved

unfoldable pub handle_main_command_receive : TestState → Outcome TestState
handle_main_command_receive s =
    read_to (λ r. r.pos) until_line s
      (λ n t. if n == 0 then ok 0 t else command (take t.read_pos t.read_buffer) n t)
