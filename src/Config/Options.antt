-- ===== src/Config/Options.antt =====
-- Command lines that were written from options, as a parser's loop over the arguments reads them.
pub mod Server
pub mod Client
use nettest.Common.{ℕ, List, [], ◌∷◌, ◌++◌, Bytes, All, ◌≡◌, refl, ◌∙◌}
use nettest.Config.Arguments.{Flag, flag_of, Turn, next, fails, arg_loop}
use nettest.Config.Address.{ConfigError, failed}

module _ {C : Type 0} (arm : Flag → Bytes → List Bytes → C → Turn C) where
  -- A round whose arm ends well goes on behind the arguments that the arm has taken.
  pub arg_loop-next :
      (a : Bytes) (rest : List Bytes) (c : C) (k : ℕ) (d : C)
      → arm (flag_of a) a rest c ≡ next k d
      → arg_loop arm 0 (a ∷ rest) c ≡ arg_loop arm k rest d
  unfolding arg_loop
  arg_loop-next a rest c k d e = rw (arg_loop, e) refl

  pub arg_loop-fails :
      (a : Bytes) (rest : List Bytes) (c : C) (w : ConfigError)
      → arm (flag_of a) a rest c ≡ fails w
      → arg_loop arm 0 (a ∷ rest) c ≡ failed w
  unfolding arg_loop
  arg_loop-fails a rest c w e = rw (arg_loop, e) refl

-- The arguments that spell a list of options, before others, and what the options do in their order.
unfoldable pub spell_all : {O : Type 0} → (O → List Bytes) → List O → List Bytes → List Bytes
spell_all spell [] rest = rest
spell_all spell (o ∷ os) rest = spell o ++ spell_all spell os rest

unfoldable pub apply_all : {C O : Type 0} → (O → C → C) → List O → C → C
apply_all apply [] c = c
apply_all apply (o ∷ os) c = apply_all apply os (apply o c)

-- What no option changes, all of them leave alone.
pub apply_all-fixes :
    {C O A : Type 0} (apply : O → C → C) (field : C → A)
    → ((o : O) (c : C) → field (apply o c) ≡ field c)
    → (os : List O) (c : C) → field (apply_all apply os c) ≡ field c
unfolding apply_all
apply_all-fixes apply field one [] c = refl
apply_all-fixes apply field one (o ∷ os) c =
    apply_all-fixes apply field one os (apply o c) ∙ one o c

-- A parser that reads each option as it is meant reads them all.
pub arg_loop-spell_all :
    {C O : Type 0} (arm : Flag → Bytes → List Bytes → C → Turn C) (spell : O → List Bytes)
    (apply : O → C → C) (IsSpelled : O → Type 0)
    → ((o : O)
        → IsSpelled o
        → (rest : List Bytes) (c : C)
        → arg_loop arm 0 (spell o ++ rest) c ≡ arg_loop arm 0 rest (apply o c))
    → (os : List O) (rest : List Bytes) (c : C) → All IsSpelled os
    → arg_loop arm 0 (spell_all spell os rest) c ≡ arg_loop arm 0 rest (apply_all apply os c)
unfolding spell_all apply_all
arg_loop-spell_all arm spell apply IsSpelled one [] rest c h = refl
arg_loop-spell_all arm spell apply IsSpelled one (o ∷ os) rest c h =
    one o h.0 (spell_all spell os rest) c
    ∙ arg_loop-spell_all arm spell apply IsSpelled one os rest (apply o c) h.1
