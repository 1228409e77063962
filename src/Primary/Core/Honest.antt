-- ===== src/Primary/Core/Honest.antt =====
-- What an honest node's own votes rest on: every vote of a later round stands upon votes of the round
-- before that the node knew, its own among them, and so does every vote of another that it holds.
pub mod Puts
pub mod Hands
pub mod Nodes
pub mod Proofs
pub mod Progress
pub mod Judgements
pub mod Turns
pub mod Advances
pub mod Admissions
pub mod Arrivals
pub mod Runs
use nero_consensus.Prelude.{
  ◌+◌, ◌≤◌, ◌<◌, ◌≡◌, ◌≢◌, refl, ◌⊎◌, inl, inr, Bool, true, false, ◌||◌, Option, none, some, List,
  [], ◌∷◌, ◌∙◌, sym, subst, arith, ◌==◌, nat_eq, Bool-cases, eq_of_beq, beq_self, length, All,
  All-map,
}
use nero_consensus.Prelude.Map.{Map, get, contains_key, keys, values}
use nero_consensus.Prelude.Sets.{Distinct}
use nero_consensus.Crypto.{PublicKey}
use nero_consensus.Primary.General.{quorum}
use nero_consensus.Primary.Vote.{
  VoteHash, BlockHash, Round, PrimaryVote, Value, initial_vote, decide,
}
use nero_consensus.Primary.Message.{send_vote}
use nero_consensus.Primary.Election.{RoundState, Election, from_votes}
use nero_consensus.Primary.Core.State.{Env, Sent}
use nero_consensus.Primary.Core.Validate.{tally_decision}
use nero_consensus.Primary.Core.Handlers.{load_round, next}
use nero_consensus.Primary.Core.Loads.{put_round, load_round-put}
use nero_consensus.Primary.Core.Rounds.{IsSound}
use nero_consensus.Primary.Core.Tallied.{key_hash, CountsVotes}

-- The vote went out.
abbrev pub SentIn : PrimaryVote → List Sent → Type 0
SentIn v [] = ⊥
SentIn v (s ∷ log) = (s.message ≡ send_vote v) ⊎ SentIn v log

-- An election that is closed, or a round that is voted.
abbrev pub going : Election → RoundState → Bool
going e rs = rs.voted || e.is_decided

module _ (h : BlockHash) (e : Election) where
  -- A round holds votes only if the node voted in it.
  abbrev pub Present : Type 0
  Present =
      (r : Round)
      → (length (load_round e h r).validated_votes ≡ 0) ⊎ (going e (load_round e h r) ≡ true)

  -- Upon a quorum, the node voted in the next round.
  abbrev pub AdvancedAt : Round → Type 0
  AdvancedAt p =
      (length (load_round e h p).validated_votes < quorum)
      ⊎ (going e (load_round e h (next p)) ≡ true)

  abbrev pub Advanced : Type 0
  Advanced = (p : Round) → AdvancedAt p

module _ (env : Env) (id : PublicKey) (Heard : PrimaryVote → Type 0) where
  -- The node's own vote of a round.
  abbrev pub own : RoundState → Option PrimaryVote
  own rs = get (key_hash env id) rs.validated_votes

  module _ (h : BlockHash) where
    abbrev pub own_at : Election → Round → Option PrimaryVote
    own_at e r = own (load_round e h r)

    -- The round holds the vote under the hash.
    abbrev pub Holds : Election → Round → VoteHash × PrimaryVote → Type 0
    Holds e r (k, v) = get k (load_round e h r).validated_votes ≡ some v

    -- The votes of the round before that the vote of another node was judged by.
    pub record Judgement (e : Election) (w : PrimaryVote) : Type 0 where
      pub previous : Round
      pub follows : w.round ≡ previous + 1
      pub seen : Map VoteHash PrimaryVote
      pub distinct : Distinct (keys seen)
      pub held : All (Holds e previous) seen
      pub enough : quorum ≤ length seen
      pub value : w.value ≡ (tally_decision (from_votes (values seen))).value
      pub vote_type : w.vote_type ≡ (tally_decision (from_votes (values seen))).vote_type

    abbrev pub Judged : Election → PrimaryVote → Type 0
    Judged e w = ((w.round ≡ 0) × (w.vote_type ≡ initial_vote)) ⊎ Judgement e w

    -- A vote of another node, judged valid, or the node's own.
    abbrev pub Known : Election → PrimaryVote → Type 0
    Known e v = (Heard v × Judged e v) ⊎ (own_at e v.round ≡ some v)

    -- The votes of the round before that a vote rests on.
    pub record Backing (e : Election) (w : PrimaryVote) : Type 0 where
      pub previous : Round
      pub follows : w.round ≡ next previous
      pub view : RoundState
      pub sound : IsSound env h previous view
      pub counts : CountsVotes view
      pub kept : All (Holds e previous) view.validated_votes
      pub enough : quorum ≤ length view.validated_votes
      pub mine : PrimaryVote
      pub held : own view ≡ some mine
      pub open_ : mine.vote_type ≢ decide
      pub value : w.value ≡ (tally_decision view.tally).value
      pub vote_type : w.vote_type ≡ (tally_decision view.tally).vote_type

    abbrev pub Justified : Election → PrimaryVote → Type 0
    Justified e w = ((w.round ≡ 0) × (w.vote_type ≡ initial_vote)) ⊎ Backing e w

    -- Votes stay.
    abbrev pub Grows : Election → Election → Type 0
    Grows e e' = (r : Round) (k : VoteHash) (w : PrimaryVote) → Holds e r (k, w) → Holds e' r (k, w)

    pub Judged-mono : (e e' : Election) → Grows e e' → (w : PrimaryVote) → Judged e w → Judged e' w
    Judged-mono e e' grows w (inl first) = inl first
    Judged-mono e e' grows w (inr j) = inr (record {
      previous = j.previous;
      follows = j.follows;
      seen = j.seen;
      distinct = j.distinct;
      held = All-map _ _ (λ x. grows j.previous x.0 x.1) j.seen j.held;
      enough = j.enough;
      value = j.value;
      vote_type = j.vote_type;
    })

    pub Known-mono : (e e' : Election) → Grows e e' → (v : PrimaryVote) → Known e v → Known e' v
    Known-mono e e' grows v (inl (heard, judged)) = inl (heard, Judged-mono e e' grows v judged)
    Known-mono e e' grows v (inr mine) = inr (grows v.round (key_hash env id) v mine)

    pub Justified-mono :
        (e e' : Election) → Grows e e' → (w : PrimaryVote) → Justified e w → Justified e' w
    Justified-mono e e' grows w (inl first) = inl first
    Justified-mono e e' grows w (inr b) = inr (record {
      previous = b.previous;
      follows = b.follows;
      view = b.view;
      sound = b.sound;
      counts = b.counts;
      kept = All-map _ _ (λ x. grows b.previous x.0 x.1) b.view.validated_votes b.kept;
      enough = b.enough;
      mine = b.mine;
      held = b.held;
      open_ = b.open_;
      value = b.value;
      vote_type = b.vote_type;
    })

    -- A round of an election.
    pub record RoundOk (e : Election) (r : Round) (rs : RoundState) : Type 0 where
      pub sound : IsSound env h r rs
      pub counts : CountsVotes rs
      pub known : All (λ x. Known e x.1) rs.validated_votes
      pub mine : contains_key (key_hash env id) rs.validated_votes ≡ rs.voted

    pub RoundOk-mono :
        (e e' : Election) (r : Round) (rs : RoundState)
        → Grows e e'
        → RoundOk e r rs
        → RoundOk e' r rs
    RoundOk-mono e e' r rs grows ok = record {
      sound = ok.sound;
      counts = ok.counts;
      known = All-map _ _ (λ x. Known-mono e e' grows x.1) rs.validated_votes ok.known;
      mine = ok.mine;
    }

    -- An election, with the votes that went out and the value recorded.
    pub record Base (log : List Sent) (e : Election) (recorded : Option Value) : Type 0 where
      pub rounds : (r : Round) → RoundOk e r (load_round e h r)
      pub justified : (r : Round) (w : PrimaryVote) → own_at e r ≡ some w → Justified e w
      pub closed :
          (r : Round) (w : PrimaryVote)
          → own_at e r ≡ some w
          → w.vote_type ≡ decide
          → (e.is_decided ≡ true) × (recorded ≡ some w.value)
      pub kept : e.is_decided ≡ true → (x : Value) × (recorded ≡ some x)
      pub decided :
          (x : Value)
          → recorded ≡ some x
          → (w : PrimaryVote) × (own_at e w.round ≡ some w) × (w.vote_type ≡ decide) × (w.value ≡ x)
      pub sent : (w : PrimaryVote) → SentIn w log → w.election_hash ≡ h → own_at e w.round ≡ some w
      pub out : (r : Round) (w : PrimaryVote) → own_at e r ≡ some w → SentIn w log
