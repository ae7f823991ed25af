-- ===== src/Net.antt =====
-- Streams and non-blocking input and output (src/stream/stream.rs): what a handler sees of a socket.
--
-- The operating system is a script: the results of the read calls, of the write calls and of the
-- registrations to come, each call with the time at which it returns. A script that is used up
-- answers `WouldBlock`, which is what ends every loop of a handler in the source too.
pub mod Loop
use nettest.Common.{
  ℕ, ◌+◌, ◌-◌, min, Bool, true, false, ◌&&◌, List, [], ◌∷◌, ◌++◌, ◌==◌, if◌then◌else◌, Option, none,
  some, Bytes, length, take, splice, slice?, leb,
}

-- `io::ErrorKind`, as far as the handlers use or pass it on.
pub data ErrorKind : Type 0 where
  would_block timed_out unexpected_eof other : ErrorKind

-- `io::Result<usize>` with the state that the call leaves, or a panic of the thread.
pub data Outcome (S : Type 0) : Type 0 where
  ok : ℕ → S → Outcome S
  err : ErrorKind → S → Outcome S
  panic : S → Outcome S

abbrev pub final : {S : Type 0} → Outcome S → S
final (ok n s) = s
final (err e s) = s
final (panic s) = s

-- The variants of `Stream`.
pub data StreamKind : Type 0 where
  tcp web_socket open_ssl rustls rustls_server web_socket_tls web_socket_rustls_server : StreamKind

-- `mio::Interest`: what the poll reports of a registered stream.
pub data Interest : Type 0 where
  readable writable both : Interest

-- What a read call returns, and when.
pub data ReadCall : Type 0 where
  arrive : ℕ → Bytes → ReadCall
  read_fails : ℕ → ErrorKind → ReadCall

-- What a write call returns, and when: how many bytes it takes, if it is offered as many.
pub data WriteCall : Type 0 where
  accept : ℕ → ℕ → WriteCall
  write_fails : ℕ → ErrorKind → WriteCall

pub data Registration : Type 0 where
  registered refused : Registration

-- What a flush returns.
pub data Flush : Type 0 where
  flushed : Flush
  flush_fails : ErrorKind → Flush

pub record Stream : Type 0 where
  pub kind : StreamKind
  pub reads : List ReadCall
  pub writes : List WriteCall
  pub registrations : List Registration
  pub flushes : List Flush
  pub sent : Bytes
  pub now : ℕ
  pub interest : Interest

-- `Stream::write` of one call: the bytes that the call takes are sent.
unfoldable pub write : Bytes → WriteCall → Stream → Outcome Stream
write bs (accept t k) s =
    let n = min k (length bs) in ok n (record s { now = t; sent = s.sent ++ take n bs })
write bs (write_fails t e) s = err e (record s { now = t })

-- A buffer that is read into, or a message that is written, with the position in it.
pub record Reader : Type 0 where
  pub stream : Stream
  pub buffer : Bytes
  pub pos : ℕ

pub record Cursor : Type 0 where
  pub stream : Stream
  pub pos : ℕ

-- `Stream::read` of one call into `buffer[at..lim]`: at most that room is filled.
unfoldable pub read_upto : ℕ → ℕ → ReadCall → Reader → Outcome Reader
read_upto at lim (arrive t bs) r =
    let got = take (lim - at) bs in
    ok (length got)
      (record r { stream = record r.stream { now = t }; buffer = splice at got r.buffer })
read_upto at lim (read_fails t e) r = err e (record r { stream = record r.stream { now = t } })

-- The call into `buffer[at..]`.
unfoldable pub read : ℕ → ReadCall → Reader → Outcome Reader
unfolding read_upto
read at e r = read_upto at (length r.buffer) e r

-- `Stream::reregister`: a refusal is mapped to `ErrorKind::Other`.
unfoldable pub reregister_by : List Registration → Interest → Stream → Outcome Stream
reregister_by [] i s = ok 0 (record s { interest = i })
reregister_by (registered ∷ rs) i s = ok 0 (record s { interest = i; registrations = rs })
reregister_by (refused ∷ rs) i s = err other (record s { registrations = rs })

unfoldable pub reregister : Interest → Stream → Outcome Stream
unfolding reregister_by
reregister i s = reregister_by s.registrations i s

-- `Stream::flush`.
unfoldable pub flush_by : List Flush → Stream → Outcome Stream
flush_by [] s = ok 0 s
flush_by (flushed ∷ fs) s = ok 0 (record s { flushes = fs })
flush_by (flush_fails e ∷ fs) s = err e (record s { flushes = fs })

unfoldable pub flush : Stream → Outcome Stream
unfolding flush_by
flush s = flush_by s.flushes s

-- How a round of a loop ends: with the next round, or with the return of the function.
pub data Flow (S : Type 0) : Type 0 where
  again : S → Flow S
  stop : Outcome S → Flow S

-- `loop { let n = call?; body }` over the calls to come. `ready` says that the slice which a round
-- takes first is in range; `pop` takes the call off the script.
module _ {S E : Type 0} (ready : S → Bool) (pop : List E → S → S) (call : E → S → Outcome S)
    (body : ℕ → S → Flow S) where
  unfoldable pub io_loop : List E → S → Outcome S
  io_loop [] s = if ready s then err would_block s else panic s
  io_loop (e ∷ es) s = elim (ready s) [
    | false ↦ panic s
    | true ↦ elim (call e (pop es s)) [
      | err k t ↦ err k t
      | panic t ↦ panic t
      | ok n t ↦ elim (body n t) [ stop o ↦ o | again u ↦ io_loop es u ]
    ]
  ]

abbrev pub pop_write : List WriteCall → Cursor → Cursor
pop_write ws c = record c { stream = record c.stream { writes = ws } }

abbrev pub pop_read : List ReadCall → Reader → Reader
pop_read rs r = record r { stream = record r.stream { reads = rs } }

-- What a handler does when a write takes no byte: nothing, `return Err(Other, "EOF")`, `return Ok(0)`.
pub data ZeroWrite : Type 0 where
  ignored is_eof is_zero : ZeroWrite

abbrev pub is_some {ℓ} : {A : Type ℓ} → Option A → Bool
is_some none = false
is_some (some a) = true

abbrev pub or_empty : Option Bytes → Bytes
or_empty none = []
or_empty (some bs) = bs

-- One write of `part pos`, and `pos += n` unless the write took nothing and that ends the handler.
abbrev pub lift_write : ℕ → Outcome Stream → Outcome Cursor
lift_write p (ok n s) = ok n (record { stream = s; pos = p })
lift_write p (err e s) = err e (record { stream = s; pos = p })
lift_write p (panic s) = panic (record { stream = s; pos = p })

abbrev pub on_zero : ZeroWrite → Cursor → Flow Cursor → Flow Cursor
on_zero ignored c f = f
on_zero is_eof c f = stop (err other c)
on_zero is_zero c f = stop (ok 0 c)

unfoldable pub advance : ZeroWrite → ℕ → ℕ → Cursor → Flow Cursor
advance z len n c =
    let moved = record c { pos = c.pos + n } in
    let next : Flow Cursor = if moved.pos == len then stop (ok n moved) else again moved in
    if n == 0 then on_zero z c next else next

abbrev pub write_part : (ℕ → Option Bytes) → WriteCall → Cursor → Outcome Cursor
unfolding write
write_part part w c = lift_write c.pos (write (or_empty (part c.pos)) w c.stream)

-- The loop that writes a message of `len` bytes; `part pos` is the slice that a round offers.
unfoldable pub write_loop :
    ZeroWrite → (ℕ → Option Bytes) → ℕ → List WriteCall → Cursor → Outcome Cursor
unfolding io_loop write advance
write_loop z part len =
    io_loop (λ c. is_some (part c.pos)) pop_write (write_part part) (advance z len)

-- The loop that reads into `buffer[at..]`; `body` adds to the position and tests what has arrived.
unfoldable pub read_loop :
    (Reader → ℕ) → (ℕ → Reader → Flow Reader) → List ReadCall → Reader → Outcome Reader
unfolding io_loop read
read_loop at = io_loop (λ r. leb (at r) (length r.buffer)) pop_read (λ e r. read (at r) e r)

-- The loop that reads into `buffer[r.pos..lim]`.
unfoldable pub read_upto_loop :
    ℕ → (ℕ → Reader → Flow Reader) → List ReadCall → Reader → Outcome Reader
unfolding io_loop read_upto
read_upto_loop lim =
    io_loop (λ r. leb r.pos lim && leb lim (length r.buffer)) pop_read
      (λ e r. read_upto r.pos lim e r)
