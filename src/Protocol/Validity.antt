-- ===== src/Protocol/Validity.antt =====
-- What the first votes of a network allow its honest nodes to decide.
use nero_consensus.Prelude.{◌≡◌, ◌≢◌, refl, Bool, true, some, List, arith, nat_eq, length}
use nero_consensus.Prelude.Map.{get}
use nero_consensus.Prelude.Sets.{contains, Distinct}
use nero_consensus.Crypto.{PublicKey}
use nero_consensus.Primary.General.{number_of_total_nodes}
use nero_consensus.Primary.Vote.{
  BlockHash, Round, Value, PrimaryVote, initial_vote, decide, value_eq, type_eq,
}
use nero_consensus.Primary.Election.{Tally}
use nero_consensus.Primary.Core.State.{Core, Env}
use nero_consensus.Primary.Core.Honest.{SentIn}
use nero_consensus.Protocol.Phases.{Initial, Leaning}
use nero_consensus.Protocol.Network.{IsInjective, IsMember}
use nero_consensus.Protocol.Members.{IsHonest, accepted-held, held-signer, held-SentIn}
use nero_consensus.Protocol.Votes.{Follows}
use nero_consensus.Protocol.Steps.{Follows-Knows, Follows-zeros, Follows-ones}
use nero_consensus.Protocol.Stages.{EachVote, none_of, each-Follows, Leaning-next, first_Initial}
use nero_consensus.Protocol.Decisions.{settled_value, casts, recorded_vote}

-- Initial votes for one value alone.
abbrev Uniform : Value → Tally → Type 0
Uniform Value.zero t = t.one_votes ≡ 0
Uniform Value.one t = t.zero_votes ≡ 0

Follows-Uniform :
    (x : Value) (t : Tally) (w : PrimaryVote)
    → Follows t w
    → Initial t
    → Uniform x t
    → (w.value ≡ x) × (w.vote_type ≢ decide)
Follows-Uniform Value.zero t w f i u =
    let (m, k) = Follows-Knows t w f in Follows-zeros t w f i (omega (arith, k, i, u))
Follows-Uniform Value.one t w f i u =
    let (m, k) = Follows-Knows t w f in Follows-ones t w f i (omega (arith, k, i, u))

module _ (env : Env) (nodes : List PublicKey) (cores : PublicKey → Core)
    (byzantine : PublicKey → Bool)
    (members : (n : PublicKey) → contains n nodes ≡ true → IsMember env nodes cores byzantine n)
    (only : IsInjective env) (size : length nodes ≡ number_of_total_nodes)
    (distinct : Distinct nodes) (h : BlockHash) (x : Value)
    (first : (n : PublicKey) (w : PrimaryVote)
      → contains n nodes ≡ true
      → SentIn w (cores n).log
      → w.election_hash ≡ h
      → w.round ≡ 0
      → w.value ≡ x) where
  abbrev tally : Round → Tally
  tally = casts env nodes cores byzantine members only size distinct h

  first_value : EachVote env nodes cores byzantine members only size distinct h 0 (λ w. w.value ≡ x)
  first_value n w there found =
      let (m, honest, held) = accepted-held env nodes cores byzantine members only h 0 n w found in
      let (_, in_round, for_h, _) =
        held-signer env nodes cores byzantine members only h m honest 0 n w held in
      first n w there (held-SentIn env nodes cores byzantine members only h m honest 0 n w held).1
        for_h in_round

  first_Uniform : (y : Value) → x ≡ y → Uniform y (tally 0)
  first_Uniform Value.zero same =
      none_of env nodes cores byzantine members only size distinct h Value.one initial_vote 0
        (λ n w there cast. ground (arith, first_value n w there cast))
  first_Uniform Value.one same =
      none_of env nodes cores byzantine members only size distinct h Value.zero initial_vote 0
        (λ n w there cast. ground (arith, first_value n w there cast))

  -- With the first votes for one value, the next ones lean to it.
  second_Leaning : Leaning x (tally 1)
  second_Leaning =
      Leaning-next env nodes cores byzantine members only size distinct h x 1 (λ n w there cast.
        Follows-Uniform x (tally 0) w
          (each-Follows env nodes cores byzantine members only size distinct h 0 n w there cast)
          (first_Initial env nodes cores byzantine members only size distinct h)
          (first_Uniform x refl))

  -- If all the votes that four nodes send in round 0 of an election are for one value, no honest one of
  -- them ever records another value for it, whichever of the four run with `byzantine` set, whatever
  -- votes get lost or are delayed and in whatever order each node receives them and transactions: every
  -- vote that a node receives was sent by its signer, in a round that is not the last of a `u32` if the
  -- signer is another node, and no two keys have one digest.
  pub recorded_valid :
      (n : PublicKey) (y : Value)
      → IsHonest env nodes cores byzantine members only n
      → get h (cores n).decided ≡ some y
      → x ≡ y
  recorded_valid n y honest found =
      let (r, votes) =
        recorded_vote env nodes cores byzantine members only size distinct n honest h y found in
      settled_value env nodes cores byzantine members only size distinct h x second_Leaning r y
        votes
