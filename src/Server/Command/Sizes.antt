-- ===== src/Server/Command/Sizes.antt =====
-- The chunk size that a command leaves (`handle_main_command_receive` in
-- src/mioserver/handlers/common.rs).
use nettest.Common.{
  ℕ, ◌≤◌, ◌≡◌, ◌⊎◌, inl, inr, refl, List, [], ◌∷◌, Option, none, some, Bytes, arith, codes,
  contains, starts_with, Option-cases,
}
use nettest.Net.{
  Outcome, ok, err, panic, Interest, writable, Registration, registered, refused, reregister_by,
}
use nettest.Server.{
  ServerTestPhase, TestState, enter, then_stream, min_chunk_size, max_chunk_size,
  accept_command_receive, pong_send, put_no_result_send_ok,
}
use nettest.Server.Command.{
  size_in_range, size_argument, with_size, or_size, last_line, arguments, get_chunks_line,
  get_chunks_arguments, get_time_arguments, put, put_no_result, put_time_result, command,
}
use nettest.Server.Protocol.{if_elim}
use nettest.Text.{parse_u64, words, split_terminator}

abbrev pub InRange : ℕ → Type 0
InRange size = (min_chunk_size ≤ size) × (size ≤ max_chunk_size)

-- The phases that a command may lead to with the size that was there before.
pub data KeepsSize : ServerTestPhase → Type 0 where
  unknown : KeepsSize accept_command_receive
  ping : KeepsSize pong_send
  no_result : KeepsSize put_no_result_send_ok

abbrev pub HasSize : TestState → Outcome TestState → Type 0
HasSize s (ok n t) =
    InRange t.chunk_size ⊎ ((t.chunk_size ≡ s.chunk_size) × KeepsSize t.measurement_state)
HasSize s (err e t) = Unit
HasSize s (panic t) = Unit

size_in_range-InRange : (o : Option ℕ) (size : ℕ) → size_in_range o ≡ some size → InRange size
size_in_range-InRange none size h = ground arith
size_in_range-InRange (some k) size h = ground arith

size_argument-InRange : (ws : List Bytes) (size : ℕ) → size_argument ws ≡ some size → InRange size
unfolding size_argument
size_argument-InRange [] size h = ground arith
size_argument-InRange (p ∷ []) size h = ground arith
size_argument-InRange (p ∷ q ∷ ws) size h = size_in_range-InRange (parse_u64 q) size h

module _ (s : TestState) where
  enter-HasSize :
      {p : ServerTestPhase} (i : Interest) (n : ℕ) (t : TestState)
      → InRange t.chunk_size ⊎ ((t.chunk_size ≡ s.chunk_size) × KeepsSize p)
      → HasSize s (enter p i n t)
  unfolding enter then_stream
  enter-HasSize {p} i n t h = go t.stream.registrations
    where
      go :
          (rs : List Registration)
          → HasSize s (
              then_stream
                (record t { measurement_state = p })
                (reregister_by rs i t.stream)
                (λ u. ok n u))
      go [] = h
      go (registered ∷ rs) = h
      go (refused ∷ rs) = tt

  with_size-HasSize :
      (o : Option ℕ) (t : TestState) (k : ℕ → Outcome TestState)
      → ((size : ℕ) → o ≡ some size → HasSize s (k size))
      → HasSize s (with_size o t k)
  with_size-HasSize none t k h = tt
  with_size-HasSize (some size) t k h = h size refl

  get_chunks_arguments-HasSize :
      (n : ℕ) (o : Option (List Bytes)) → HasSize s (get_chunks_arguments n o s)
  unfolding get_chunks_arguments
  get_chunks_arguments-HasSize n none = tt
  get_chunks_arguments-HasSize n (some []) = tt
  get_chunks_arguments-HasSize n (some (p ∷ ps)) = with_size-HasSize (parse_u64 p) _ _ (λ num f.
      with_size-HasSize (size_argument (p ∷ ps)) _ _
        (λ size e. enter-HasSize writable n _ (inl (size_argument-InRange (p ∷ ps) size e))))

  get_chunks_line-HasSize : (n : ℕ) (o : Option Bytes) → HasSize s (get_chunks_line n o s)
  unfolding get_chunks_line
  get_chunks_line-HasSize n none = tt
  get_chunks_line-HasSize n (some line) = get_chunks_arguments-HasSize n (arguments 9 line)

  get_time_arguments-HasSize :
      (n : ℕ) (o : Option (List Bytes)) → HasSize s (get_time_arguments n o s)
  unfolding get_time_arguments
  get_time_arguments-HasSize n none = tt
  get_time_arguments-HasSize n (some []) = tt
  get_time_arguments-HasSize n (some (p ∷ ps)) = with_size-HasSize (parse_u64 p) _ _ (λ d f.
      with_size-HasSize (size_argument (p ∷ ps)) _ _
        (λ size e. enter-HasSize writable n _ (inl (size_argument-InRange (p ∷ ps) size e))))

  or_size-InRange : (o : Option ℕ) → InRange (or_size (size_in_range o) min_chunk_size)
  or_size-InRange o = elim (Option-cases (size_in_range o)) [
    | inl e ↦ rw e (ground arith)
    | inr (size, e) ↦ rw e (size_in_range-InRange o size e)
  ]

  or_size-kept :
      (o : Option ℕ)
      → InRange (or_size (size_in_range o) s.chunk_size)
        ⊎ ((or_size (size_in_range o) s.chunk_size ≡ s.chunk_size)
            × KeepsSize put_no_result_send_ok)
  or_size-kept o = elim (Option-cases (size_in_range o)) [
    | inl e ↦ rw e (inr (refl, no_result))
    | inr (size, e) ↦ rw e (inl (size_in_range-InRange o size e))
  ]

  put_no_result-HasSize : (n : ℕ) (ws : List Bytes) → HasSize s (put_no_result n ws s)
  unfolding put_no_result
  put_no_result-HasSize n [] = enter-HasSize writable n _ (inl (ground arith))
  put_no_result-HasSize n (a ∷ []) = enter-HasSize writable n _ (inl (ground arith))
  put_no_result-HasSize n (a ∷ q ∷ []) = enter-HasSize writable n _ (or_size-kept (parse_u64 q))
  put_no_result-HasSize n (a ∷ q ∷ r ∷ ws) = tt

  put_time_result-HasSize : (n : ℕ) (ws : List Bytes) → HasSize s (put_time_result n ws s)
  unfolding put_time_result
  put_time_result-HasSize n [] = tt
  put_time_result-HasSize n (a ∷ []) = tt
  put_time_result-HasSize n (a ∷ q ∷ ws) =
      enter-HasSize writable n _ (inl (or_size-InRange (parse_u64 q)))

  put-HasSize : (n : ℕ) (ws : List Bytes) → HasSize s (put n ws s)
  unfolding put
  put-HasSize n [] = enter-HasSize writable n _ (inl (ground arith))
  put-HasSize n (a ∷ []) = enter-HasSize writable n _ (inl (ground arith))
  put-HasSize n (a ∷ q ∷ []) = enter-HasSize writable n _ (inl (or_size-InRange (parse_u64 q)))
  put-HasSize n (a ∷ q ∷ r ∷ ws) = tt

  -- Whatever the line is: a command that is taken up leaves a chunk size that the server allows, or
  -- the size that was there before, and that only for an unknown command, a PING and a PUTNORESULT.
  pub command-HasSize : (line : Bytes) (n : ℕ) → HasSize s (command line n s)
  unfolding command
  command-HasSize line n =
      if_elim (HasSize s) (contains (codes "GETCHUNKS") line)
        (get_chunks_line-HasSize n (last_line (split_terminator line)))
        (if_elim (HasSize s) (starts_with (codes "PING\n") line)
          (enter-HasSize writable n _ (inr (refl, ping)))
          (if_elim (HasSize s) (starts_with (codes "GETTIME") line)
            (get_time_arguments-HasSize n (arguments 7 line))
            (if_elim (HasSize s) (starts_with (codes "PUTNORESULT") line)
              (put_no_result-HasSize n (words line))
              (if_elim (HasSize s) (starts_with (codes "PUTTIMERESULT") line)
                (put_time_result-HasSize n (words line))
                (if_elim (HasSize s) (starts_with (codes "PUT") line) (put-HasSize n (words line))
                  (inr (refl, unknown)))))))
