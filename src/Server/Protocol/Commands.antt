-- ===== src/Server/Protocol/Commands.antt =====
-- The diagram and the handler of a command (src/mioserver/handlers/common.rs).
use nettest.Common.{ℕ, Option, none, some, ◌≡◌, refl, ◌∙◌, List, [], ◌∷◌, Bytes, inr}
use nettest.Net.{Interest, writable, Outcome}
use nettest.Server.{TestState, accept_command_receive}
use nettest.Server.Protocol.{Wakes, Keeps, if_elim, enter-Keeps}
use nettest.Common.{◌==◌, ◌+◌, codes, ends_at, take, starts_with, contains}
use nettest.Net.{Reader}
use nettest.Net.Loop.{StreamKept}
use nettest.Server.Command.{
  until_line, last_line, arguments, size_argument, with_size, get_chunks_line, get_chunks_arguments,
  get_time_arguments, put, put_no_result, put_time_result, command, handle_main_command_receive,
}
use nettest.Server.Protocol.{
  still_awake, chunks_asked, ping_asked, time_asked, no_result_asked, result_asked, put_asked,
}
use nettest.Server.Protocol.Loops.{Here}
use nettest.Server.Protocol.Reading.{tail_read-Keeps}
use nettest.Text.{split_terminator, words, parse_u64}

until_line-kept : (n : ℕ) (r : Reader) → StreamKept r (until_line n r)
unfolding until_line
until_line-kept n r =
    if_elim (StreamKept r) (n == 0) (refl, refl, refl, refl)
      (if_elim (StreamKept r) (ends_at (codes "\n") r.buffer (r.pos + n)) (refl, refl, refl, refl)
        (refl, refl, refl, refl))

abbrev KeepsCommand : Interest → Outcome TestState → Type 0
KeepsCommand i o = Keeps accept_command_receive i o

module _ (i : Interest) (n : ℕ) where
  with_size-Keeps :
      (o : Option ℕ) (s : TestState) (k : ℕ → Outcome TestState)
      → ((size : ℕ) → KeepsCommand i (k size))
      → KeepsCommand i (with_size o s k)
  with_size-Keeps none s k h = tt
  with_size-Keeps (some size) s k h = h size

  get_chunks_arguments-Keeps :
      (o : Option (List Bytes)) (s : TestState) → KeepsCommand i (get_chunks_arguments n o s)
  unfolding get_chunks_arguments
  get_chunks_arguments-Keeps none s = tt
  get_chunks_arguments-Keeps (some []) s = tt
  get_chunks_arguments-Keeps (some (p ∷ ps)) s = with_size-Keeps (parse_u64 p) _ _ (λ num.
      with_size-Keeps (size_argument (p ∷ ps)) _ _
        (λ size. enter-Keeps accept_command_receive i writable n _ chunks_asked refl))

  get_chunks_line-Keeps :
      (o : Option Bytes) (s : TestState) → KeepsCommand i (get_chunks_line n o s)
  unfolding get_chunks_line
  get_chunks_line-Keeps none s = tt
  get_chunks_line-Keeps (some line) s = get_chunks_arguments-Keeps (arguments 9 line) s

  get_time_arguments-Keeps :
      (o : Option (List Bytes)) (s : TestState) → KeepsCommand i (get_time_arguments n o s)
  unfolding get_time_arguments
  get_time_arguments-Keeps none s = tt
  get_time_arguments-Keeps (some []) s = tt
  get_time_arguments-Keeps (some (p ∷ ps)) s = with_size-Keeps (parse_u64 p) _ _ (λ d.
      with_size-Keeps (size_argument (p ∷ ps)) _ _
        (λ size. enter-Keeps accept_command_receive i writable n _ time_asked refl))

  put_no_result-Keeps : (ws : List Bytes) (s : TestState) → KeepsCommand i (put_no_result n ws s)
  unfolding put_no_result
  put_no_result-Keeps [] s = enter-Keeps accept_command_receive i writable n _ no_result_asked refl
  put_no_result-Keeps (a ∷ []) s =
      enter-Keeps accept_command_receive i writable n _ no_result_asked refl
  put_no_result-Keeps (a ∷ q ∷ []) s =
      enter-Keeps accept_command_receive i writable n _ no_result_asked refl
  put_no_result-Keeps (a ∷ q ∷ r ∷ ws) s = tt

  put_time_result-Keeps :
      (ws : List Bytes) (s : TestState) → KeepsCommand i (put_time_result n ws s)
  unfolding put_time_result
  put_time_result-Keeps [] s = tt
  put_time_result-Keeps (a ∷ []) s = tt
  put_time_result-Keeps (a ∷ q ∷ ws) s =
      enter-Keeps accept_command_receive i writable n _ result_asked refl

  put-Keeps : (ws : List Bytes) (s : TestState) → KeepsCommand i (put n ws s)
  unfolding put
  put-Keeps [] s = enter-Keeps accept_command_receive i writable n _ put_asked refl
  put-Keeps (a ∷ []) s = enter-Keeps accept_command_receive i writable n _ put_asked refl
  put-Keeps (a ∷ q ∷ []) s = enter-Keeps accept_command_receive i writable n _ put_asked refl
  put-Keeps (a ∷ q ∷ r ∷ ws) s = tt

  pub command-Keeps :
      (line : Bytes) (s : TestState)
      → Here accept_command_receive i s
      → Wakes accept_command_receive i
      → KeepsCommand i (command line n s)
  unfolding command
  command-Keeps line s h w =
      if_elim (KeepsCommand i) (contains (codes "GETCHUNKS") line)
        (get_chunks_line-Keeps (last_line (split_terminator line)) s)
        (if_elim (KeepsCommand i) (starts_with (codes "PING\n") line)
          (enter-Keeps accept_command_receive i writable n _ ping_asked refl)
          (if_elim (KeepsCommand i) (starts_with (codes "GETTIME") line)
            (get_time_arguments-Keeps (arguments 7 line) s)
            (if_elim (KeepsCommand i) (starts_with (codes "PUTNORESULT") line)
              (put_no_result-Keeps (words line) s)
              (if_elim (KeepsCommand i) (starts_with (codes "PUTTIMERESULT") line)
                (put_time_result-Keeps (words line) s)
                (if_elim (KeepsCommand i) (starts_with (codes "PUT") line)
                  (put-Keeps (words line) s)
                  (inr refl, still_awake {p = accept_command_receive} w refl h.1))))))

pub handle_main_command_receive-Keeps :
    (s : TestState) (i : Interest)
    → s.measurement_state ≡ accept_command_receive
    → s.stream.interest ≡ i
    → Wakes accept_command_receive i
    → Keeps accept_command_receive i (handle_main_command_receive s)
unfolding handle_main_command_receive
handle_main_command_receive-Keeps s i e f w =
    tail_read-Keeps accept_command_receive i s _ _ _ until_line-kept e f (λ n r g.
      if_elim (KeepsCommand i) (n == 0) (inr e, still_awake w e (g.0 ∙ f))
        (command-Keeps i n (take r.pos r.buffer) _ (e, g.0 ∙ f) w))
