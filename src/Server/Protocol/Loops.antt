-- ===== src/Server/Protocol/Loops.antt =====
-- The diagram and the loops over a chunk (`send_loop` and `chunk_loop`).
use nettest.Common.{ℕ, ◌≡◌, List, Bytes, length, slice, leb}
use nettest.Net.{
  Interest, Flow, again, stop, ReadCall, WriteCall, arrive, read_fails, accept, write_fails, write,
  read,
}
use nettest.Net.Loop.{Held, HeldFlow, io_loop_inv_panic}
use nettest.Server.{ServerTestPhase, TestState, chunk_loop, read_chunk, pop_reads}
use nettest.Server.GetChunks.{send_loop, pop_writes, lift_stream}
use nettest.Server.Protocol.{Keeps, err-Keeps}

module _ (p : ServerTestPhase) (i : Interest) where
  -- The handler still runs in its phase.
  abbrev pub Here : TestState → Type 0
  Here s = (s.measurement_state ≡ p) × (s.stream.interest ≡ i)

  abbrev pub FlowKeeps : Flow TestState → Type 0
  FlowKeeps (again t) = Here t
  FlowKeeps (stop o) = Keeps p i o

  module _ (body : ℕ → TestState → Flow TestState)
      (round : (n : ℕ) (t : TestState) → Here t → FlowKeeps (body n t)) where
    held_flow : (f : Flow TestState) → FlowKeeps f → HeldFlow body Here (Keeps p i) f
    held_flow (again t) h = h
    held_flow (stop o) h = h

    write_round :
        (chunk : Bytes) (w : WriteCall) (ws : List WriteCall) (s : TestState)
        → Here s
        → Held body Here (Keeps p i) (
            lift_stream
              (pop_writes ws s)
              (write (slice s.write_pos (length chunk) chunk) w (pop_writes ws s).stream))
    unfolding write
    write_round chunk (accept t n) ws s h = held_flow _ (round _ _ h)
    write_round chunk (write_fails t e) ws s h = err-Keeps p i e _ h.0 h.1

    pub send_loop-Keeps :
        (chunk : Bytes) (s : TestState) → Here s → Keeps p i (send_loop chunk body s)
    unfolding send_loop
    send_loop-Keeps chunk s h =
        io_loop_inv_panic (λ t. leb t.write_pos (length chunk)) pop_writes
          (λ w t. lift_stream t (write (slice t.write_pos (length chunk) chunk) w t.stream)) body
          Here (Keeps p i) (λ t g. g) (λ t g. tt) (write_round chunk) s.stream.writes s h

    read_round :
        (e : ReadCall) (es : List ReadCall) (s : TestState)
        → Here s
        → Held body Here (Keeps p i) (read_chunk e (pop_reads es s))
    unfolding read_chunk read
    read_round (arrive t bs) es s h = held_flow _ (round _ _ h)
    read_round (read_fails t e) es s h = err-Keeps p i e _ h.0 h.1

    pub chunk_loop-Keeps : (s : TestState) → Here s → Keeps p i (chunk_loop body s)
    unfolding chunk_loop
    chunk_loop-Keeps s h =
        io_loop_inv_panic (λ t. leb t.read_pos (length t.chunk_buffer)) pop_reads read_chunk body
          Here (Keeps p i) (λ t g. g) (λ t g. tt) read_round s.stream.reads s h
