-- ===== src/Config/Arguments.antt =====
-- The loop over the arguments of a command line, which the three parsers share: `while i < args.len()`
-- with a match on `args[i]`, whose arms may move `i` on.
use nettest.Common.{ℕ, zero, suc, List, [], ◌∷◌, Bytes, codes}
use nettest.Text.Split.{match_text}
use nettest.Config.Address.{ConfigError, Parsed, parsed, failed, panicked}

-- The options that some parser knows.
pub data Flag : Type 0 where
  dash_l dash_L dash_c dash_k dash_t dash_u dash_d dash_D dash_w dash_v : Flag
  dash_log dash_e dash_register dash_h dash_p dash_g dash_tls dash_ws dash_raw : Flag
  dash_save dash_git_hash dash_other : Flag

abbrev pub flag_names : List (Bytes × Flag)
flag_names =
    (codes "-l", dash_l)
    ∷ (codes "-L", dash_L)
    ∷ (codes "-c", dash_c)
    ∷ (codes "-k", dash_k)
    ∷ (codes "-t", dash_t)
    ∷ (codes "-u", dash_u)
    ∷ (codes "-d", dash_d)
    ∷ (codes "-D", dash_D)
    ∷ (codes "-w", dash_w)
    ∷ (codes "-v", dash_v)
    ∷ (codes "-log", dash_log)
    ∷ (codes "-e", dash_e)
    ∷ (codes "-register", dash_register)
    ∷ (codes "--help", dash_h)
    ∷ (codes "-h", dash_h)
    ∷ (codes "-p", dash_p)
    ∷ (codes "-g", dash_g)
    ∷ (codes "-tls", dash_tls)
    ∷ (codes "-ws", dash_ws)
    ∷ (codes "-raw", dash_raw)
    ∷ (codes "-save", dash_save)
    ∷ (codes "-git-hash", dash_git_hash)
    ∷ []

unfoldable pub flag_of : Bytes → Flag
flag_of = match_text dash_other flag_names

-- How an arm of the match ends: with `i` moved by so many places more than the loop itself moves it,
-- with a return, or with a panic.
pub data Turn (C : Type 0) : Type 0 where
  next : ℕ → C → Turn C
  fails : ConfigError → Turn C
  panics : Turn C

-- `e?` and `e.unwrap()` in an arm.
abbrev pub turn_try : {A C : Type 0} → Parsed A → (A → Turn C) → Turn C
turn_try (parsed a) k = k a
turn_try (failed e) k = fails e
turn_try panicked k = panics

abbrev pub turn_unwrap : {A C : Type 0} → Parsed A → (A → Turn C) → Turn C
turn_unwrap (parsed a) k = k a
turn_unwrap _ k = panics

-- `i += 1; if i < args.len() { … args[i] … }`.
abbrev pub with_value : {C : Type 0} → List Bytes → C → (Bytes → Turn C) → Turn C
with_value [] c k = next 1 c
with_value (v ∷ rest) c k = k v

abbrev pub turn_end : {C : Type 0} → Turn C → (ℕ → C → Parsed C) → Parsed C
turn_end (next k d) later = later k d
turn_end (fails e) later = failed e
turn_end panics later = panicked

-- The loop, from `args[i]` on; the number says how many arguments are passed over first.
module _ {C : Type 0} (arm : Flag → Bytes → List Bytes → C → Turn C) where
  unfoldable pub arg_loop : ℕ → List Bytes → C → Parsed C
  arg_loop k [] c = parsed c
  arg_loop (suc k) (a ∷ rest) c = arg_loop k rest c
  arg_loop zero (a ∷ rest) c = turn_end (arm (flag_of a) a rest c) (λ k d. arg_loop k rest d)
