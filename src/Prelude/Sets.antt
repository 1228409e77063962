-- ===== src/Prelude/Sets.antt =====
-- `BTreeSet`. A set of hashes is its sorted list, so that equal sets are equal lists; a set of
-- votes, which the code only tests and counts, is a list without repetitions.
use Prim.Native.Nat.{◌<◌, ℕ, suc, ◌<◌}
use mathlib.Core.Path.{◌≡◌, refl}
use mathlib.Core.Bool.{Bool, false, ◌||◌}
use mathlib.Core.List.{List, [], ◌∷◌, ◌++◌}
use native.Mathlib.Omega.{arith}
use nero_consensus.Prelude.Tests.{PartialEq, ◌==◌, if◌then◌else◌, ltb, nat_eq}
use nero_consensus.Prelude.Lists.{length}

module _ {ℓ} {A : Type ℓ} ⦃e : PartialEq A⦄ where
  unfoldable pub contains : A → List A → Bool
  contains a [] = false
  contains a (x ∷ xs) = x == a || contains a xs

  -- `insert` into a set of votes.
  unfoldable pub include : A → List A → List A
  include a xs = if contains a xs then xs else xs ++ a ∷ []

  unfoldable pub remove : A → List A → List A
  remove a [] = []
  remove a (x ∷ xs) = let rest = remove a xs in if x == a then rest else x ∷ rest

  abbrev pub Distinct : List A → Type 0
  Distinct [] = Unit {0}
  Distinct (x ∷ xs) = (contains x xs ≡ false) × Distinct xs

  pub contains-append :
      (a : A) (xs ys : List A) → contains a (xs ++ ys) ≡ (contains a xs || contains a ys)
  unfolding contains
  contains-append a [] ys = refl
  contains-append a (x ∷ xs) ys = ground (arith, contains-append a xs ys)

  pub contains-include :
      (a b : A) (xs : List A) → contains b (include a xs) ≡ (a == b || contains b xs)
  unfolding include contains
  contains-include a b xs = ground (arith, contains-append b xs (a ∷ []), e.beq_iff a b)

  pub contains-remove :
      (a b : A) (xs : List A) → contains b (remove a xs) ≡ (if a == b then false else contains b xs)
  unfolding remove contains
  contains-remove a b [] = ground arith
  contains-remove a b (x ∷ xs) =
      ground (arith, e.beq_iff a b, e.beq_iff x a, e.beq_iff x b, contains-remove a b xs)

-- `insert` into a set of hashes.
unfoldable pub insert : ℕ → List ℕ → List ℕ
insert a [] = a ∷ []
insert a (x ∷ xs) =
    let rest = insert a xs in if ltb a x then a ∷ x ∷ xs else if x == a then x ∷ xs else x ∷ rest

-- `collect()`
unfoldable pub collect : List ℕ → List ℕ
collect [] = []
collect (x ∷ xs) = insert x (collect xs)

-- Each member is above the one before it, the first above the bound.
abbrev pub Above : ℕ → List ℕ → Type 0
Above a [] = Unit {0}
Above a (x ∷ xs) = (a < x) × Above x xs

abbrev pub IsSorted : List ℕ → Type 0
IsSorted [] = Unit {0}
IsSorted (x ∷ xs) = Above x xs

Above-insert : (lo a : ℕ) (xs : List ℕ) → lo < a → Above lo xs → Above lo (insert a xs)
unfolding insert
Above-insert lo a [] h s = (h, tt)
Above-insert lo a (x ∷ xs) h s = ground (arith, Above-insert x a xs)

IsSorted-insert : (a : ℕ) (xs : List ℕ) → IsSorted xs → IsSorted (insert a xs)
unfolding insert
IsSorted-insert a [] s = tt
IsSorted-insert a (x ∷ xs) s = ground (arith, Above-insert x a xs)

pub collect-IsSorted : (xs : List ℕ) → IsSorted (collect xs)
unfolding collect
collect-IsSorted [] = tt
collect-IsSorted (x ∷ xs) = IsSorted-insert x (collect xs) (collect-IsSorted xs)

pub contains-insert : (a b : ℕ) (xs : List ℕ) → contains b (insert a xs) ≡ (a == b || contains b xs)
unfolding insert contains
contains-insert a b [] = refl
contains-insert a b (x ∷ xs) = ground (arith, contains-insert a b xs)

pub contains-collect : (b : ℕ) (xs : List ℕ) → contains b (collect xs) ≡ contains b xs
unfolding collect contains
contains-collect b [] = refl
contains-collect b (x ∷ xs) =
    ground (arith, contains-insert x b (collect xs), contains-collect b xs)

length-insert :
    (a : ℕ) (xs : List ℕ) → contains a xs ≡ false → length (insert a xs) ≡ suc (length xs)
unfolding insert contains
length-insert a [] h = refl
length-insert a (x ∷ xs) h = ground (arith, length-insert a xs)

-- A set collected from distinct values has as many members.
pub length-collect : (xs : List ℕ) → Distinct xs → length (collect xs) ≡ length xs
unfolding collect
length-collect [] h = refl
length-collect (x ∷ xs) h =
    ground (arith, length-insert x (collect xs), contains-collect x xs, length-collect xs h.1)
