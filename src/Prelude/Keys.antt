-- ===== src/Prelude/Keys.antt =====
-- The keys of a map, as a set.
use nero_consensus.Prelude.Map.{get-head}
use nero_consensus.Prelude.Lists.{All}
use nero_consensus.Prelude.Tests.{PartialEq, ◌==◌}
use nero_consensus.Prelude.Map.{Map, get, insert, keys}
use nero_consensus.Prelude.Sets.{contains, Distinct}
use nero_consensus.Prelude.Lists.{is_some, length}
use Prim.Native.Nat.{suc}
use mathlib.Core.Option.{some}
use mathlib.Core.Path.{◌≡◌, refl}
use mathlib.Core.Bool.{false, ◌||◌}
use mathlib.Core.List.{[], ◌∷◌}
use mathlib.Core.Option.{none}
use native.Mathlib.Omega.{arith}

module _ {ℓ κ} {K : Type ℓ} {V : Type κ} ⦃e : PartialEq K⦄ where
  pub contains-keys : (k : K) (m : Map K V) → contains k (keys m) ≡ is_some (get k m)
  unfolding contains get
  contains-keys k [] = refl
  contains-keys k ((j, w) ∷ m) = ground (arith, contains-keys k m)

  contains-keys-insert :
      (k j : K) (v : V) (m : Map K V)
      → contains j (keys (insert k v m)) ≡ (k == j || contains j (keys m))
  unfolding contains insert
  contains-keys-insert k j v [] = refl
  contains-keys-insert k j v ((i, w) ∷ m) =
      ground (arith, contains-keys-insert k j v m, e.beq_iff i k, e.beq_iff i j, e.beq_iff k j)

  pub Distinct-keys-insert :
      (k : K) (v : V) (m : Map K V) → Distinct (keys m) → Distinct (keys (insert k v m))
  unfolding insert contains
  Distinct-keys-insert k v [] h = (refl, tt)
  Distinct-keys-insert k v ((j, w) ∷ m) h = ground (
    arith,
    Distinct-keys-insert k v m h.1,
    contains-keys-insert k j v m,
    e.beq_iff j k,
    e.beq_iff k j,
  )

  pub length-insert_new :
      (k : K) (v : V) (m : Map K V) → get k m ≡ none → length (insert k v m) ≡ suc (length m)
  unfolding get insert
  length-insert_new k v [] h = refl
  length-insert_new k v ((j, w) ∷ m) h = ground (arith, length-insert_new k v m)

  All-get_cons :
      (j : K) (v : V) (m n : Map K V)
      → contains j (keys n) ≡ false
      → All (λ x. get x.0 m ≡ some x.1) n
      → All (λ x. get x.0 ((j, v) ∷ m) ≡ some x.1) n
  unfolding get contains
  All-get_cons j v m [] out all = tt
  All-get_cons j v m ((i, w) ∷ n) out all = (
    ground (arith, out, all.0, e.beq_iff i j, e.beq_iff j i),
    All-get_cons j v m n (ground (arith, out)) all.1,
  )

  -- A map of distinct keys holds each of its entries.
  pub All-get_self : (m : Map K V) → Distinct (keys m) → All (λ x. get x.0 m ≡ some x.1) m
  All-get_self [] distinct = tt
  All-get_self ((j, v) ∷ m) distinct =
      (get-head j v m, All-get_cons j v m m distinct.0 (All-get_self m distinct.1))
