-- ===== src/Tests/Networks.antt =====
-- primary/src/core.rs on four nodes: three decide, and the fourth, which is byzantine, makes a vote up.
use nero_consensus.Prelude.{
  All, ◌≡◌, refl, inl, inr, true, false, some, List, [], ◌∷◌, arith, is_some, unwrap_or, nat_eq,
  Bool, none, ◌==◌, if◌then◌else◌, Bool-cases, eq_of_beq, subst,
}
use mathlib.Core.Option.{some-injective}
use nero_consensus.Prelude.Map.{Map, get}
use nero_consensus.Random
use nero_consensus.Random.{Rng}
use nero_consensus.Prelude.Map
use nero_consensus.Prelude.Sets
use nero_consensus.Network.ReliableSender
use nero_consensus.Primary.Vote
use nero_consensus.Primary.Election
use nero_consensus.Primary.Core.Validate
use nero_consensus.Primary.Core.State
use nero_consensus.Primary.Core.Handlers
use nero_consensus.Crypto.{PublicKey}
use nero_consensus.Primary.Vote.{PrimaryVote, VoteType, zero, one, initial_vote, commit, decide}
use nero_consensus.Primary.Election.{from_votes}
use nero_consensus.Primary.Core.Validate.{tally_decision}
use nero_consensus.Primary.Core.Loads.{round_of}
use nero_consensus.Primary.Message.{PrimaryMessage, send_vote}
use nero_consensus.Primary.Core.State.{Core, Sent, spawn}
use nero_consensus.Primary.Core.Handlers.{Event, vote_received, transactions_received, run, step}
use nero_consensus.Primary.Core.Honest.{SentIn}
use nero_consensus.Primary.Core.Honest.Runs.{Receives}
use nero_consensus.Protocol.Network.{IsFromPeer, IsMember}
use nero_consensus.Tests.Nodes.{env, ones, peers, first_vote, commit_vote, found}

abbrev pub nodes : List PublicKey
nodes = 0 ∷ 1 ∷ 2 ∷ 3 ∷ []

abbrev pub zero_vote : VoteType → PrimaryVote
zero_vote kind = record (commit_vote 0) { value = zero; vote_type = kind }

abbrev pub decide_vote : PublicKey → PrimaryVote
decide_vote signer = record (commit_vote signer) { round = 2; vote_type = decide }

-- The vote of round 1 that the fourth node makes up: its proof names three votes for one.
abbrev pub made_up : PrimaryVote
made_up = record (zero_vote initial_vote) { signer = 3; proof = some (0 ∷ 1 ∷ 3 ∷ []) }

-- A node votes, hears itself and two others vote, and hears these two commit and decide.
abbrev pub hearing : PublicKey → PublicKey → PublicKey → List Event → List Event
hearing n a b later =
    transactions_received (record { digest = 7 } ∷ [])
    ∷ vote_received (first_vote n)
    ∷ vote_received (first_vote a)
    ∷ vote_received (first_vote b)
    ∷ vote_received (commit_vote a)
    ∷ vote_received (commit_vote b)
    ∷ vote_received (decide_vote a)
    ∷ vote_received (decide_vote b)
    ∷ later

-- The fourth node hears two others vote, and its own votes reach the first node late.
abbrev pub events : PublicKey → List Event
events n =
    if n == 0
    then hearing 0 1 2 (vote_received (first_vote 3) ∷ vote_received made_up ∷ [])
    else if n == 1
    then hearing 1 0 2 []
    else if n == 2
    then hearing 2 0 1 []
    else transactions_received (record { digest = 7 } ∷ [])
      ∷ vote_received (first_vote 0)
      ∷ vote_received (first_vote 1)
      ∷ []

-- The fourth node runs with `byzantine` set, and draws another value when it makes a decision up.
abbrev pub byzantine : PublicKey → Bool
byzantine n = n == 3

abbrev pub draws : PublicKey → Rng
draws n = record { draw = λ i. if i == 0 then 1 else if byzantine n then 0 else 1; position = 0 }

abbrev pub start : PublicKey → Core
start n = spawn env n peers (byzantine n) (draws n) ones

abbrev pub cores : PublicKey → Core
cores n = unwrap_or (run (start n) (events n)) (start n)

-- What holds of the four nodes.
each :
    (P : PublicKey → Type 0)
    → P 0
    → P 1
    → P 2
    → P 3
    → (n : PublicKey) → Sets.contains n nodes ≡ true
    → P n
unfolding Sets.contains
each P p0 p1 p2 p3 n here = elim (Bool-cases (0 == n)) [
  | inl same ↦ subst P (eq_of_beq 0 n same) p0
  | inr not_0 ↦ elim (Bool-cases (1 == n)) [
    | inl same ↦ subst P (eq_of_beq 1 n same) p1
    | inr not_1 ↦ elim (Bool-cases (2 == n)) [
      | inl same ↦ subst P (eq_of_beq 2 n same) p2
      | inr not_2 ↦ elim (Bool-cases (3 == n)) [
        | inl same ↦ subst P (eq_of_beq 3 n same) p3
        | inr not_3 ↦ absurd (ground arith)
      ]
    ]
  ]
]

abbrev pub HasSent : PublicKey → Type 0
HasSent n =
    SentIn (first_vote n) (cores n).log
    × SentIn (commit_vote n) (cores n).log
    × SentIn (decide_vote n) (cores n).log

-- A vote for one, if it is of round 0.
abbrev pub IsForOne : PrimaryMessage → Type 0
IsForOne (send_vote v) = v.round ≡ 0 → v.value ≡ one
IsForOne _ = ⊥

abbrev pub AreOnes : Sent → Type 0
AreOnes s = IsForOne s.message

pub facts :
    (is_some (run (start 0) (events 0)) ≡ true)
    × (is_some (run (start 1) (events 1)) ≡ true)
    × (is_some (run (start 2) (events 2)) ≡ true)
    × (is_some (run (start 3) (events 3)) ≡ true)
    × (get 7 (cores 0).decided ≡ some one)
    × (get 7 (cores 2).decided ≡ some one)
    × HasSent 0
    × HasSent 1
    × HasSent 2
    × ((k : PublicKey) → Sets.contains k nodes ≡ true → All AreOnes (cores k).log)
    × (SentIn (first_vote 3) (cores 3).log × SentIn made_up (cores 3).log)
    × (get 3 (round_of (cores 0) 7 1).validated_votes ≡ none)
unfolding run spawn Map.get Map.insert Sets.contains Sets.include Sets.insert Sets.collect
    Sets.remove Vote.digest Vote.random_vote Vote.random_decision Vote.vote_beq
    Validate.validate_vote Validate.make_decision Validate.tally_decision Validate.find_round
    Validate.validate_proof Validate.proof_votes Validate.proof_tally Validate.judge
    Election.from_votes Election.tally_vote Election.add_to_tally Election.count_vote
    Election.count_votes ReliableSender.broadcast ReliableSender.send Handlers.accept_vote
    Handlers.admit_vote Handlers.advance Handlers.answer Handlers.await_proof
    Handlers.cast_initial_vote Handlers.cast_next Handlers.cast_vote Handlers.dispatch_vote
    Handlers.handle_noted Handlers.handle_transaction Handlers.handle_transactions
    Handlers.handle_vote Handlers.load_election Handlers.load_round Handlers.next_round_vote
    Handlers.note_vote Handlers.promote Handlers.promote_valid Handlers.record_decision
    Handlers.settle Handlers.settle_all Handlers.step Handlers.store_election Handlers.try_advance
    Handlers.validate_pending_votes State.broadcast_message Random.gen_range
facts = (
  refl,
  refl,
  refl,
  refl,
  refl,
  refl,
  (inr (inr (inl refl)), inr (inl refl), inl refl),
  (inr (inr (inl refl)), inr (inl refl), inl refl),
  (inr (inr (inl refl)), inr (inl refl), inl refl),
  each (λ k. All AreOnes (cores k).log) (λ _. refl, (λ _. refl, (λ _. refl, tt)))
      (λ _. refl, (λ _. refl, (λ _. refl, tt))) (λ _. refl, (λ _. refl, (λ _. refl, tt)))
      (λ first. absurd (omega (arith, first)), (λ _. refl, tt)),
  (inr (inl refl), inl refl),
  refl,
)

-- A node has sent its first vote when it comes back.
echo :
    (n : PublicKey) (core : Core)
    → step (start n) (transactions_received (record { digest = 7 } ∷ [])) ≡ some core
    → SentIn (first_vote n) core.log
unfolding step spawn Handlers.handle_transactions Handlers.handle_transaction Handlers.load_election
    Handlers.load_round Handlers.store_election Handlers.cast_initial_vote Handlers.cast_vote
    Vote.random_vote State.broadcast_message Random.gen_range Map.get
echo n core eq = subst (λ c. SentIn (first_vote n) c.log) (some-injective _ _ eq) (inl refl)

-- What a node hears, if the others sent it.
hears :
    (n a b : PublicKey)
    → IsFromPeer nodes cores n (first_vote a)
      × IsFromPeer nodes cores n (commit_vote a)
      × IsFromPeer nodes cores n (decide_vote a)
    → IsFromPeer nodes cores n (first_vote b)
      × IsFromPeer nodes cores n (commit_vote b)
      × IsFromPeer nodes cores n (decide_vote b)
    → (later : List Event) → ((c : Core) → Receives (IsFromPeer nodes cores n) c later)
    → Receives (IsFromPeer nodes cores n) (start n) (hearing n a b later)
hears n a b va vb later rest = (
  tt,
  λ c eq. (
    inr (echo n c eq),
    λ _ _. (
      inl va.0,
      λ _ _. (
        inl vb.0,
        λ _ _. (inl va.1, λ _ _. (inl vb.1, λ _ _. (inl va.2, λ _ _. (inl vb.2, λ c _. rest c)))),
      ),
    ),
  ),
)

member :
    (n : PublicKey)
    → Receives (IsFromPeer nodes cores n) (start n) (events n)
    → is_some (run (start n) (events n)) ≡ true
    → IsMember env nodes cores byzantine n
member n heard ran = record {
  peers = peers;
  rng = draws n;
  seed = ones;
  events = events n;
  heard = heard;
  ran = found (run (start n) (events n)) (start n) ran;
}

from_peer :
    (n a : PublicKey)
    → (Sets.contains a nodes ≡ true) × ((a == n) ≡ false)
    → SentIn (first_vote a) (cores a).log
      × SentIn (commit_vote a) (cores a).log
      × SentIn (decide_vote a) (cores a).log
    → IsFromPeer nodes cores n (first_vote a)
      × IsFromPeer nodes cores n (commit_vote a)
      × IsFromPeer nodes cores n (decide_vote a)
from_peer n a other out = (
  (other.0, other.1, out.0, (omega arith)),
  (other.0, other.1, out.1, (omega arith)),
  (other.0, other.1, out.2, (omega arith)),
)

pub members : (n : PublicKey) → Sets.contains n nodes ≡ true → IsMember env nodes cores byzantine n
unfolding Sets.contains
members =
    each (IsMember env nodes cores byzantine)
      (member 0
        (hears 0 1 2 (from_peer 0 1 (refl, refl) facts.7) (from_peer 0 2 (refl, refl) facts.8)
          (vote_received (first_vote 3) ∷ vote_received made_up ∷ [])
          (λ _. (
            inl (refl, refl, facts.10.0, (omega arith)),
            λ _ _. (inl (refl, refl, facts.10.1, (omega arith)), λ _ _. tt),
          )))
        facts.0)
      (member 1
        (hears 1 0 2 (from_peer 1 0 (refl, refl) facts.6) (from_peer 1 2 (refl, refl) facts.8) []
          (λ _. tt))
        facts.1)
      (member 2
        (hears 2 0 1 (from_peer 2 0 (refl, refl) facts.6) (from_peer 2 1 (refl, refl) facts.7) []
          (λ _. tt))
        facts.2)
      (member 3
        (
          tt,
          λ _ _. (
            inl (refl, refl, facts.6.0, (omega arith)),
            λ _ _. (inl (refl, refl, facts.7.0, (omega arith)), λ _ _. tt),
          ),
        )
        facts.3)
