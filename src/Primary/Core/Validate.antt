-- ===== src/Primary/Core/Validate.antt =====
-- primary/src/core.rs: `make_decision` and `validate_vote`. `none` is a panic.
use nero_consensus.Prelude.{
  ◌-◌, ◌&&◌, ◌||◌, Option, none, some, List, [], ◌∷◌, ltb, leb, ◌==◌, nat_eq, if◌then◌else◌, ◌>>=◌,
}
use nero_consensus.Prelude.Map.{Map, get}
use nero_consensus.Prelude.Sets.{include}
use nero_consensus.Primary.General.{quorum, semi_quorum}
use nero_consensus.Primary.Vote.{
  VoteHash, BlockHash, Round, Value, Decision, PrimaryVote, ValidationStatus, initial_vote, commit,
  decide, valid, invalid, pending, type_eq, value_eq, vote_eq, random_decision,
}
use nero_consensus.Primary.Election.{Tally, RoundState, from_votes}
use nero_consensus.Primary.Core.State.{Core}

-- The choices of `make_decision` below the test of a byzantine node.
unfoldable pub tally_decision : Tally → Decision
tally_decision t =
    if leb semi_quorum t.zero_commits && leb semi_quorum t.one_commits
    then record { value = Value.zero; vote_type = initial_vote }
    else if ltb 0 t.one_decides
    then record { value = Value.one; vote_type = decide }
    else if ltb 0 t.zero_decides
    then record { value = Value.zero; vote_type = decide }
    else if leb quorum t.zero_commits
    then record { value = Value.zero; vote_type = decide }
    else if leb quorum t.one_commits
    then record { value = Value.one; vote_type = decide }
    else if leb quorum t.zero_votes || ltb 0 t.zero_commits
    then record { value = Value.zero; vote_type = commit }
    else if leb quorum t.one_votes || ltb 0 t.one_commits
    then record { value = Value.one; vote_type = commit }
    else if leb semi_quorum t.zero_votes
    then record { value = Value.zero; vote_type = initial_vote }
    else if ltb t.zero_votes semi_quorum
        && ltb t.one_votes quorum
        && t.zero_commits == 0
        && t.one_commits == 0
    then record { value = Value.one; vote_type = initial_vote }
    else record { value = Value.zero; vote_type = initial_vote }

unfoldable pub make_decision : Core → Tally → Decision × Core
make_decision core t =
    let (chosen, rng1) = random_decision core.rng in
    if core.byzantine && t.one_decides == 0 && t.one_decides == 0
    then (chosen, record core { rng = rng1 })
    else (tally_decision t, core)

-- The first loop of `validate_vote`; `none` is its `return Pending`.
unfoldable pub proof_votes :
    Map VoteHash PrimaryVote → List VoteHash → List PrimaryVote → Option (List PrimaryVote)
proof_votes validated [] votes = some votes
proof_votes validated (hash ∷ hashes) votes = elim (get hash validated) [
  | none ↦ none
  | some vote ↦ proof_votes validated hashes (include vote votes)
]

-- Its second loop, whose set is not used; `none` is the panic of `unwrap`.
unfoldable pub proof_tally :
    Map VoteHash PrimaryVote → List VoteHash → List PrimaryVote → Option (List PrimaryVote)
proof_tally validated [] votes = some votes
proof_tally validated (hash ∷ hashes) votes = do
  vote ← get hash validated
  proof_tally validated hashes (include vote votes)

-- The vote against the decision that its proof makes.
unfoldable pub judge : Core → PrimaryVote → List PrimaryVote → ValidationStatus × Core
judge core vote votes =
    let (decision, core1) = make_decision core (from_votes votes) in
    (
      if decision.vote_type == vote.vote_type && decision.value == vote.value
          then valid
          else invalid,
      core1,
    )

unfoldable pub validate_proof : Core → RoundState → PrimaryVote → Option (ValidationStatus × Core)
validate_proof core rs vote = do
  proof ← vote.proof
  elim (proof_votes rs.validated_votes proof []) [
    | none ↦ some (pending, core)
    | some votes ↦ do _ ← proof_tally rs.validated_votes proof []; some (judge core vote votes)
  ]

-- The state of a round of an election, if there is one.
unfoldable pub find_round : Core → BlockHash → Round → Option RoundState
find_round core hash round = do election ← get hash core.elections; get round election.state

unfoldable pub validate_vote : Core → PrimaryVote → Option (ValidationStatus × Core)
validate_vote core vote =
    if vote.round == 0
    then some
        (if vote.vote_type == commit || vote.vote_type == decide then invalid else valid, core)
    else elim (find_round core vote.election_hash (vote.round - 1)) [
      | none ↦ some (invalid, core)
      | some rs ↦ validate_proof core rs vote
    ]
