-- ===== src/Primary/Core/Views.antt =====
-- The votes that a node holds of a round, as a view of the nodes of the network, and what two nodes
-- make of their views.
use nero_consensus.Prelude.{
  ℕ, ◌+◌, ◌≡◌, refl, inl, inr, true, false, none, List, [], ◌∷◌, arith, ◌==◌, nat_eq, if◌then◌else◌,
  Bool-cases, map, ◌∙◌, sym, ap, subst, All, eq_of_beq, absent_of,
}
use nero_consensus.Prelude.Map.{Map, get, keys, values}
use nero_consensus.Prelude.Sets.{contains, Distinct}
use nero_consensus.Prelude.Keys.{contains-keys}
use nero_consensus.Crypto.{PublicKey}
use nero_consensus.Primary.Vote.{VoteHash, Value, VoteType, PrimaryVote, value_eq, type_eq}
use nero_consensus.Primary.Election.{from_votes}
use nero_consensus.Primary.Election.Tallies.{count, matches}
use nero_consensus.Primary.Core.Agreement.{View, votes_of, voted_for, tested, count-votes_of}
use nero_consensus.Primary.Core.Acceptance.{from_votes-count}

-- What a map of votes holds of each node, when the votes of a node stand under its hash.
abbrev pub view_of : (PublicKey → VoteHash) → Map VoteHash PrimaryVote → View
view_of hash m = λ n. get (hash n) m

module _ (hash : PublicKey → VoteHash) (x : Value) (y : VoteType) where
  -- How many nodes the map holds such a vote of.
  abbrev held : Map VoteHash PrimaryVote → List PublicKey → ℕ
  held m nodes = tested (λ n. voted_for x y (view_of hash m n)) nodes

  held-none : (nodes : List PublicKey) → held [] nodes ≡ 0
  unfolding tested get
  held-none [] = refl
  held-none (n ∷ nodes) = ground (arith, held-none nodes)

  -- A vote under a hash of nobody is not held.
  held-skip :
      (k : VoteHash) (v : PrimaryVote) (m : Map VoteHash PrimaryVote) (nodes : List PublicKey)
      → contains k (map hash nodes) ≡ false
      → held ((k, v) ∷ m) nodes ≡ held m nodes
  unfolding tested get contains
  held-skip k v m [] out = refl
  held-skip k v m (n ∷ nodes) out = elim (Bool-cases (k == hash n)) [
    | inl same ↦ absurd (ground (arith, eq_of_beq k (hash n) same))
    | inr other ↦ rw other (
        ap (λ c. (if voted_for x y (get (hash n) m) then 1 else 0) + c)
          (held-skip k v m nodes (ground arith)))
  ]

  held-one :
      (k : VoteHash) (v : PrimaryVote) (m : Map VoteHash PrimaryVote) (nodes : List PublicKey)
      → get k m ≡ none
      → Distinct (map hash nodes)
      → contains k (map hash nodes) ≡ true
      → held ((k, v) ∷ m) nodes ≡ (if matches x y v then 1 else 0) + held m nodes
  unfolding tested get contains
  held-one k v m [] new apart there = absurd (ground arith)
  held-one k v m (n ∷ nodes) new apart there = elim (Bool-cases (k == hash n)) [
    | inl same ↦
        let here : k ≡ hash n = eq_of_beq k (hash n) same in
        let empty : get (hash n) m ≡ none = subst (λ j. get j m ≡ none) here new in
        let out : contains k (map hash nodes) ≡ false =
          subst (λ j. contains j (map hash nodes) ≡ false) (sym here) apart.0 in
        rw same (rw empty (omega (arith, held-skip k v m nodes out)))
    | inr other ↦ rw other (omega (arith, held-one k v m nodes new apart.1 (ground arith)))
  ]

  -- Votes of distinct hashes, all of them hashes of the nodes, are counted node by node.
  count-held :
      (m : Map VoteHash PrimaryVote) (nodes : List PublicKey)
      → Distinct (map hash nodes)
      → Distinct (keys m)
      → All (λ k. contains k (map hash nodes) ≡ true) (keys m)
      → count x y (values m) ≡ held m nodes
  unfolding count
  count-held [] nodes apart distinct known = sym (held-none nodes)
  count-held ((k, v) ∷ m) nodes apart distinct known =
      ap (λ c. (if matches x y v then 1 else 0) + c) (count-held m nodes apart distinct.1 known.1)
      ∙ sym (
          held-one k v m nodes (absent_of (get k m) (sym (contains-keys k m) ∙ distinct.0)) apart
            known.0)

  pub count-view_of :
      (m : Map VoteHash PrimaryVote) (nodes : List PublicKey)
      → Distinct (map hash nodes)
      → Distinct (keys m)
      → All (λ k. contains k (map hash nodes) ≡ true) (keys m)
      → count x y (values m) ≡ count x y (votes_of (view_of hash m) nodes)
  count-view_of m nodes apart distinct known =
      count-held m nodes apart distinct known ∙ sym (count-votes_of x y (view_of hash m) nodes)

-- The tally of such votes is that of the view.
pub from_votes-view_of :
    (hash : PublicKey → VoteHash) (m : Map VoteHash PrimaryVote) (nodes : List PublicKey)
    → Distinct (map hash nodes)
    → Distinct (keys m)
    → All (λ k. contains k (map hash nodes) ≡ true) (keys m)
    → from_votes (values m) ≡ from_votes (votes_of (view_of hash m) nodes)
from_votes-view_of hash m nodes apart distinct known =
    from_votes-count (values m) (votes_of (view_of hash m) nodes)
      (λ x y. count-view_of hash x y m nodes apart distinct known)
