-- ===== src/Server/Worker/Slots.antt =====
-- Lemmas on a worker's table and on the shared counts (src/mioserver/worker.rs).
use nettest.Common.{
  ==_iff, ℕ, zero, suc, ◌≤◌, ◌<◌, true, false, ◌||◌, Bool, List, [], ◌∷◌, ◌++◌, ◌==◌, Option, none,
  some, length, All, ◌≡◌, refl, arith, ◌⊎◌, inl, inr, if_cases,
}
use nettest.Server.Worker.{Slot, modify, remove, find_slot, replace}

-- A number stands in a list.
abbrev pub listed : ℕ → List ℕ → Bool
listed t [] = false
listed t (u ∷ us) = u == t || listed t us

pub listed-append : (t : ℕ) (us vs : List ℕ) → listed t us ≡ true → listed t (us ++ vs) ≡ true
listed-append t [] vs h = cc
listed-append t (u ∷ us) vs h = ground (arith, listed-append t us vs)

pub listed_last : (t : ℕ) (us : List ℕ) → listed t (us ++ t ∷ []) ≡ true
listed_last t [] = ground arith
listed_last t (u ∷ us) = ground (arith, listed_last t us)

pub modify-some :
    (i : ℕ) (f : ℕ → ℕ) (ns : List ℕ)
    → i < length ns
    → (ms : List ℕ) × (modify i f ns ≡ some ms) × (length ms ≡ length ns)
unfolding modify
modify-some i f [] h = absurd (omega arith)
modify-some zero f (n ∷ ns) h = (f n ∷ ns, refl, refl)
modify-some (suc i) f (n ∷ ns) h =
    let (ms, e, l) = modify-some i f ns (omega arith) in (n ∷ ms, rw e refl, omega (arith, l))

pub length-replace : (new : Slot) (ss : List Slot) → length (replace new ss) ≡ length ss
unfolding replace
length-replace new [] = refl
length-replace new (s ∷ ss) = omega (arith, length-replace new ss)

pub length-remove : (t : ℕ) (ss : List Slot) → length (remove t ss) ≤ length ss
unfolding remove
length-remove t [] = omega arith
length-remove t (s ∷ ss) = ground (arith, length-remove t ss)

module _ {ℓ} (P : Slot → Type ℓ) where
  pub replace-All : (new : Slot) (ss : List Slot) → P new → All P ss → All P (replace new ss)
  unfolding replace
  replace-All new [] h k = tt
  replace-All new (s ∷ ss) h k =
      if_cases (λ u. P u × All P (replace new ss)) (s.token == new.token)
        (λ e. (h, replace-All new ss h k.1)) (λ e. (k.0, replace-All new ss h k.1))

  -- What is found is an entry, of the token that is looked for.
  abbrev pub Found : ℕ → Option Slot → Type ℓ
  Found t none = Unit
  Found t (some s) = P s × (s.token ≡ t)

  pub find_slot-Found : (t : ℕ) (ss : List Slot) → All P ss → Found t (find_slot t ss)
  unfolding find_slot
  find_slot-Found t [] k = tt
  find_slot-Found t (u ∷ ss) k =
      if_cases (Found t) (u.token == t) (λ e. (k.0, (==_iff u.token t).0 e))
        (λ e. find_slot-Found t ss k.1)

  -- What holds of the entries that are not listed holds of those that are left.
  pub remove-All :
      (t : ℕ) (out : List ℕ) (ss : List Slot)
      → All (λ s. P s ⊎ (listed s.token (t ∷ out) ≡ true)) ss
      → All (λ s. P s ⊎ (listed s.token out ≡ true)) (remove t ss)
  unfolding remove
  remove-All t out [] k = tt
  remove-All t out (u ∷ ss) k =
      if_cases (All (λ s. P s ⊎ (listed s.token out ≡ true))) (u.token == t)
        (λ e. remove-All t out ss k.1) (λ e. (still e k.0, remove-All t out ss k.1))
    where
      still :
          (u.token == t) ≡ false
          → P u ⊎ (listed u.token (t ∷ out) ≡ true)
          → P u ⊎ (listed u.token out ≡ true)
      still e (inl p) = inl p
      still e (inr q) = inr (ground arith)

  pub unlisted-All : (ss : List Slot) → All (λ s. P s ⊎ (listed s.token [] ≡ true)) ss → All P ss
  unlisted-All [] k = tt
  unlisted-All (s ∷ ss) (inl p, k) = (p, unlisted-All ss k)
  unlisted-All (s ∷ ss) (inr q, k) = absurd cc

  pub grown-All :
      (out more : List ℕ) (ss : List Slot)
      → All (λ s. P s ⊎ (listed s.token out ≡ true)) ss
      → All (λ s. P s ⊎ (listed s.token (out ++ more) ≡ true)) ss
  grown-All out more [] k = tt
  grown-All out more (s ∷ ss) (inl p, k) = (inl p, grown-All out more ss k)
  grown-All out more (s ∷ ss) (inr q, k) =
      (inr (listed-append s.token out more q), grown-All out more ss k)

  pub listed-All : (ss : List Slot) → All P ss → All (λ s. P s ⊎ (listed s.token [] ≡ true)) ss
  listed-All [] k = tt
  listed-All (s ∷ ss) (p, k) = (inl p, listed-All ss k)
