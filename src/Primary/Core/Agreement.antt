-- ===== src/Primary/Core/Agreement.antt =====
-- Two nodes that count the votes of one round cannot reach opposite quorums.
use nero_consensus.Prelude.{
  ℕ, ◌+◌, ◌≤◌, ◌≡◌, ◌≢◌, refl, inl, inr, Bool, false, not, ◌&&◌, Option, none, some, List, [], ◌∷◌,
  arith, ◌==◌, if◌then◌else◌, Bool-cases, length,
}
use nero_consensus.Crypto.{PublicKey}
use nero_consensus.Primary.General.{quorum, number_of_total_nodes, number_of_byzantine_nodes}
use nero_consensus.Primary.Vote.{
  VoteType, Value, Decision, PrimaryVote, initial_vote, commit, decide, type_eq, value_eq,
}
use nero_consensus.Primary.Election.{Tally, from_votes}
use nero_consensus.Primary.Election.Tallies.{count, entry, matches, from_votes-entry}
use nero_consensus.Primary.Core.Validate.{tally_decision}

-- What a node has validated of a round: one vote of each node, at most.
abbrev pub View : Type 0
View = PublicKey → Option PrimaryVote

abbrev pub votes_of : View → List PublicKey → List PrimaryVote
votes_of view [] = []
votes_of view (n ∷ nodes) = elim (view n) [
  | none ↦ votes_of view nodes
  | some v ↦ v ∷ votes_of view nodes
]

abbrev pub voted_for : Value → VoteType → Option PrimaryVote → Bool
voted_for x y none = false
voted_for x y (some v) = matches x y v

abbrev differ : Option PrimaryVote → Option PrimaryVote → Bool
differ (some v) (some w) = not (v.value == w.value && v.vote_type == w.vote_type)
differ _ _ = false

-- How many of the nodes pass a test.
unfoldable pub tested : (PublicKey → Bool) → List PublicKey → ℕ
tested p [] = 0
tested p (n ∷ nodes) = (if p n then 1 else 0) + tested p nodes

-- The nodes whose votes the two views disagree about.
abbrev pub equivocators : View → View → List PublicKey → ℕ
equivocators a b = tested (λ n. differ (a n) (b n))

pub count-votes_of :
    (x : Value) (y : VoteType) (a : View) (nodes : List PublicKey)
    → count x y (votes_of a nodes) ≡ tested (λ n. voted_for x y (a n)) nodes
unfolding count tested
count-votes_of x y a [] = refl
count-votes_of x y a (n ∷ nodes) = ground (arith, count-votes_of x y a nodes)

pub count-le : (p : PublicKey → Bool) (nodes : List PublicKey) → tested p nodes ≤ length nodes
unfolding tested
count-le p [] = omega arith
count-le p (n ∷ nodes) = ground (arith, count-le p nodes)

-- Two sets of nodes overlap by what they have too many.
overlap :
    (x x' : Value) (y : VoteType) (a b : View) (nodes : List PublicKey)
    → x ≢ x'
    → tested (λ n. voted_for x y (a n)) nodes + tested (λ n. voted_for x' y (b n)) nodes
      ≤ length nodes + equivocators a b nodes
unfolding tested
overlap x x' y a b [] ne = omega arith
overlap x x' y a b (n ∷ nodes) ne = ground (arith, overlap x x' y a b nodes ne)

-- The counter of a view for a value and a type.
abbrev pub seen : Value → VoteType → View → List PublicKey → ℕ
seen x y a nodes = entry x y (from_votes (votes_of a nodes))

pub seen-tested :
    (x : Value) (y : VoteType) (a : View) (nodes : List PublicKey)
    → length nodes ≡ number_of_total_nodes
    → seen x y a nodes ≡ tested (λ n. voted_for x y (a n)) nodes
seen-tested x y a nodes h = omega (
  arith,
  from_votes-entry x y (votes_of a nodes),
  count-votes_of x y a nodes,
  count-le (λ n. voted_for x y (a n)) nodes,
)

-- Of four nodes with one equivocator at most, no two views hold quorums of one type of vote for
-- different values.
pub quorums_agree :
    (x x' : Value) (y : VoteType) (a b : View) (nodes : List PublicKey)
    → length nodes ≡ number_of_total_nodes
    → equivocators a b nodes ≤ number_of_byzantine_nodes
    → quorum ≤ seen x y a nodes
    → quorum ≤ seen x' y b nodes
    → x ≡ x'
quorums_agree x x' y a b nodes size few qa qb = elim (Bool-cases (x == x')) [
  | inl same ↦ ground arith
  | inr other ↦ absurd (
      omega (
        arith,
        overlap x x' y a b nodes (ground arith),
        seen-tested x y a nodes size,
        seen-tested x' y b nodes size,
      ))
]

abbrev pub decision_of : View → List PublicKey → Decision
decision_of a nodes = tally_decision (from_votes (votes_of a nodes))

decide_needs :
    (t : Tally)
    → t.zero_decides ≡ 0
    → t.one_decides ≡ 0
    → (tally_decision t).vote_type ≡ decide
    → quorum ≤ entry (tally_decision t).value commit t
unfolding tally_decision
decide_needs t z o d = ground arith

commit_needs :
    (t : Tally)
    → t.zero_commits ≡ 0
    → t.one_commits ≡ 0
    → (tally_decision t).vote_type ≡ commit
    → quorum ≤ entry (tally_decision t).value initial_vote t
unfolding tally_decision
commit_needs t z o d = ground arith

-- The view holds no vote of the type.
abbrev pub Lacks : VoteType → View → List PublicKey → Type 0
Lacks y a nodes = (seen Value.zero y a nodes ≡ 0) × (seen Value.one y a nodes ≡ 0)

module _ (a b : View) (nodes : List PublicKey) (size : length nodes ≡ number_of_total_nodes)
    (few : equivocators a b nodes ≤ number_of_byzantine_nodes) where
  -- Among four nodes of which at most one shows them different votes, two nodes that decide upon
  -- the votes of one round, none of which decides already, decide the same value.
  pub decisions_agree :
      Lacks decide a nodes
      → Lacks decide b nodes
      → (decision_of a nodes).vote_type ≡ decide
      → (decision_of b nodes).vote_type ≡ decide
      → (decision_of a nodes).value ≡ (decision_of b nodes).value
  decisions_agree la lb da db =
      quorums_agree (decision_of a nodes).value (decision_of b nodes).value commit a b nodes size
        few (decide_needs (from_votes (votes_of a nodes)) la.0 la.1 da)
        (decide_needs (from_votes (votes_of b nodes)) lb.0 lb.1 db)

  -- Among four nodes of which at most one shows them different votes, two nodes that commit upon
  -- the votes of one round, none of which commits already, commit to the same value.
  pub commits_agree :
      Lacks commit a nodes
      → Lacks commit b nodes
      → (decision_of a nodes).vote_type ≡ commit
      → (decision_of b nodes).vote_type ≡ commit
      → (decision_of a nodes).value ≡ (decision_of b nodes).value
  commits_agree la lb da db =
      quorums_agree (decision_of a nodes).value (decision_of b nodes).value initial_vote a b nodes
        size few (commit_needs (from_votes (votes_of a nodes)) la.0 la.1 da)
        (commit_needs (from_votes (votes_of b nodes)) lb.0 lb.1 db)
