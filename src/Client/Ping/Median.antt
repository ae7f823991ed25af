-- ===== src/Client/Ping/Median.antt =====
-- The median of the ping times (`get_median_latency` in src/client/handlers/ping.rs).
use mathlib.Core.List.{Perm}
use mathlib.Core.List.Perm
use nettest.Common.{
  ℕ, suc, ◌+◌, ◌-◌, ◌/◌, ◌%◌, ◌^◌, ◌≤◌, ◌<◌, ◌≡◌, ◌≢◌, refl, ap, ◌∙◌, zero, List, [], ◌∷◌, arith,
  length, length-append, ◌++◌, sym, All, Option, some, leb, if_cases, ◌==◌, get_elem?,
}
use nettest.Client.{u64}
use nettest.Client.Ping.{insert_sorted, sort_unstable, get_median_latency, mean}

-- Every number is followed by no smaller one.
abbrev pub IsSorted : List ℕ → Type 0
IsSorted [] = Unit
IsSorted (x ∷ xs) = All (λ y. x ≤ y) xs × IsSorted xs

All-weaken : (a b : ℕ) (xs : List ℕ) → a ≤ b → All (λ y. b ≤ y) xs → All (λ y. a ≤ y) xs
All-weaken a b [] h k = tt
All-weaken a b (x ∷ xs) h k = (omega arith, All-weaken a b xs h k.1)

insert_sorted-All :
    (P : ℕ → Type 0) (a : ℕ) (xs : List ℕ) → P a → All P xs → All P (insert_sorted a xs)
insert_sorted-All P a [] h k = (h, tt)
insert_sorted-All P a (x ∷ xs) h k =
    if_cases (All P) (leb a x) (λ e. (h, k)) (λ e. (k.0, insert_sorted-All P a xs h k.1))

insert_sorted-IsSorted : (a : ℕ) (xs : List ℕ) → IsSorted xs → IsSorted (insert_sorted a xs)
insert_sorted-IsSorted a [] h = (tt, tt)
insert_sorted-IsSorted a (x ∷ xs) h =
    if_cases IsSorted (leb a x) (λ e. ((ground arith, All-weaken a x xs (ground arith) h.0), h))
      (λ e.
        (insert_sorted-All (λ y. x ≤ y) a xs (ground arith) h.0, insert_sorted-IsSorted a xs h.1))

insert_sorted-length : (a : ℕ) (xs : List ℕ) → length (insert_sorted a xs) ≡ suc (length xs)
insert_sorted-length a [] = refl
insert_sorted-length a (x ∷ xs) =
    if_cases (λ ys. length ys ≡ suc (suc (length xs))) (leb a x) (λ e. refl)
      (λ e. ap suc (insert_sorted-length a xs))

sort_unstable-All : (P : ℕ → Type 0) (xs : List ℕ) → All P xs → All P (sort_unstable xs)
unfolding sort_unstable
sort_unstable-All P [] h = tt
sort_unstable-All P (x ∷ xs) h =
    insert_sorted-All P x (sort_unstable xs) h.0 (sort_unstable-All P xs h.1)

sort_unstable-IsSorted : (xs : List ℕ) → IsSorted (sort_unstable xs)
unfolding sort_unstable
sort_unstable-IsSorted [] = tt
sort_unstable-IsSorted (x ∷ xs) =
    insert_sorted-IsSorted x (sort_unstable xs) (sort_unstable-IsSorted xs)

sort_unstable-length : (xs : List ℕ) → length (sort_unstable xs) ≡ length xs
unfolding sort_unstable
sort_unstable-length [] = refl
sort_unstable-length (x ∷ xs) =
    insert_sorted-length x (sort_unstable xs) ∙ ap suc (sort_unstable-length xs)

insert_sorted-Perm : (a : ℕ) (xs : List ℕ) → Perm (insert_sorted a xs) (a ∷ xs)
insert_sorted-Perm a [] = Perm.refl (a ∷ [])
insert_sorted-Perm a (x ∷ xs) =
    if_cases (λ ys. Perm ys (a ∷ x ∷ xs)) (leb a x) (λ e. Perm.refl (a ∷ x ∷ xs))
      (λ e. Perm.trans (Perm.cons x (insert_sorted-Perm a xs)) (Perm.swap a x xs))

sort_unstable-Perm : (xs : List ℕ) → Perm (sort_unstable xs) xs
unfolding sort_unstable
sort_unstable-Perm [] = Perm.refl []
sort_unstable-Perm (x ∷ xs) =
    Perm.trans (insert_sorted-Perm x (sort_unstable xs)) (Perm.cons x (sort_unstable-Perm xs))

positive : (times : List ℕ) → times ≢ [] → 0 < length (sort_unstable times)
positive [] h = absurd (h refl)
positive (x ∷ xs) h = omega (arith, sort_unstable-length (x ∷ xs))

-- What stands in a list behind so many others.
elem_behind :
    (low : List ℕ) (a : ℕ) (high : List ℕ) → get_elem? (low ++ a ∷ high) (length low) ≡ some a
elem_behind [] a high = refl
elem_behind (x ∷ low) a high = elem_behind low a high

second_behind :
    (low : List ℕ) (a b : ℕ) (high : List ℕ)
    → get_elem? (low ++ a ∷ b ∷ high) (suc (length low)) ≡ some b
second_behind [] a b high = refl
second_behind (x ∷ low) a b high = second_behind low a b high

cut :
    (xs : List ℕ) (i : ℕ)
    → i < length xs
    → (low : List ℕ) × (a : ℕ) × (high : List ℕ) × (xs ≡ low ++ a ∷ high) × (length low ≡ i)
cut [] i h = ground arith
cut (x ∷ xs) zero h = ([], x, xs, refl, refl)
cut (x ∷ xs) (suc i) h =
    let (low, a, high, e, k) = cut xs i (omega arith) in
    (x ∷ low, a, high, ap (λ ys. x ∷ ys) e, ap suc k)

-- The number in the middle of a list of odd length, or half the sum of the two in the middle.
pub data Middle (xs : List ℕ) (m : ℕ) : Type 0 where
  one_middle : (low high : List ℕ) → xs ≡ low ++ m ∷ high → length low ≡ length high → Middle xs m
  two_middle :
      (low : List ℕ) (a b : ℕ) (high : List ℕ)
      → xs ≡ low ++ a ∷ b ∷ high
      → length low ≡ length high
      → m ≡ (a + b) / 2
      → Middle xs m

-- The middle of the same times in ascending order.
pub record IsMedian (times : List ℕ) (m : ℕ) : Type 0 where
  pub ascending : List ℕ
  pub same : Perm ascending times
  pub sorted : IsSorted ascending
  pub middle : Middle ascending m

abbrev Fits : ℕ → Type 0
Fits t = t < 2 ^ 63

All-tail : (low : List ℕ) (xs : List ℕ) → All Fits (low ++ xs) → All Fits xs
All-tail [] xs h = h
All-tail (y ∷ low) xs h = All-tail low xs h.1

abbrev HasMiddle : List ℕ → Option ℕ → Type 0
HasMiddle xs o = (m : ℕ) × (o ≡ some m) × Middle xs m

odd_cut :
    (xs : List ℕ) (i : ℕ)
    → (low : List ℕ) × (a : ℕ) × (high : List ℕ) × (xs ≡ low ++ a ∷ high) × (length low ≡ i)
    → length xs ≡ 1 + (i + i)
    → HasMiddle xs (get_elem? xs i)
odd_cut xs i (low, a, high, e, k) h =
    let all : length (low ++ a ∷ high) ≡ 1 + (i + i) = sym (ap length e) ∙ h in
    (
      a,
      rw (e, sym k) (elem_behind low a high),
      one_middle low high e (omega (arith, all, length-append low (a ∷ high), k)),
    )

even_cut :
    (xs : List ℕ) (i : ℕ)
    → (low : List ℕ) × (a : ℕ) × (high : List ℕ) × (xs ≡ low ++ a ∷ high) × (length low ≡ i)
    → length xs ≡ 2 + (i + i)
    → All Fits xs
    → HasMiddle xs (mean (get_elem? xs i) (get_elem? xs (suc i)))
even_cut xs i (low, a, [], e, k) h fits =
    let all : length (low ++ a ∷ []) ≡ 2 + (i + i) = sym (ap length e) ∙ h in
    absurd (omega (arith, all, length-append low (a ∷ []), k))
even_cut xs i (low, a, b ∷ high, e, k) h fits =
    let all : length (low ++ a ∷ b ∷ high) ≡ 2 + (i + i) = sym (ap length e) ∙ h in
    let two = All-tail low (a ∷ b ∷ high) (rw e at fits) in
    (
      u64 (a + b) / 2,
      rw (e, sym k, elem_behind low a (b ∷ high), second_behind low a b high) refl,
      two_middle low a b high e (omega (arith, all, length-append low (a ∷ b ∷ high), k))
          (omega (arith, two.0, two.1.0)),
    )

-- The median of at least one ping time exists and is the middle of the times in ascending order, or
-- half the sum of the two in the middle, as long as the sum of two times fits 64 bits.
pub get_median_latency-IsMedian :
    (times : List ℕ)
    → times ≢ []
    → All (λ t. t < 2 ^ 63) times
    → (m : ℕ) × (get_median_latency times ≡ some m) × IsMedian times m
unfolding get_median_latency
get_median_latency-IsMedian times h k =
    let sorted = sort_unstable times in
    let some_time : 0 < length sorted = positive times h in
    let mid = length sorted / 2 in
    let found : HasMiddle sorted (get_median_latency times) =
      if_cases (HasMiddle sorted) (length sorted % 2 == 0)
        (λ e.
          if_cases (HasMiddle sorted) (mid == 0) (λ f. ground arith)
            (λ f.
              let back : suc (mid - 1) ≡ mid = ground arith in
              rw back at (
                even_cut sorted (mid - 1) (cut sorted (mid - 1) (ground arith)) (ground arith)
                  (sort_unstable-All Fits times k))))
        (λ e. odd_cut sorted mid (cut sorted mid (ground arith)) (ground arith)) in
    (
      found.0,
      found.1,
      record {
        ascending = sorted;
        same = sort_unstable-Perm times;
        sorted = sort_unstable-IsSorted times;
        middle = found.2;
      },
    )
