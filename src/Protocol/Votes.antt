-- ===== src/Protocol/Votes.antt =====
-- What a vote of a later round rests on: a share of the votes that were accepted in the round before.
use nero_consensus.Prelude.{
  ◌+◌, ◌^◌, ◌≤◌, ◌<◌, ◌≡◌, inl, inr, ◌⊎◌, Bool, true, Option, some, List, [], ◌∷◌, ◌∙◌, sym, ap,
  subst, arith, nat_eq, length, length-map, map, All,
}
use nero_consensus.Prelude.Map.{Map, get, keys, values, All-get}
use nero_consensus.Prelude.Sets.{contains, Distinct}
use nero_consensus.Crypto.{PublicKey}
use nero_consensus.Primary.General.{quorum, number_of_total_nodes}
use nero_consensus.Primary.Vote.{VoteHash, BlockHash, Round, PrimaryVote, initial_vote, digest}
use nero_consensus.Primary.Election.{Tally}
use nero_consensus.Primary.Core.State.{Core, Env}
use nero_consensus.Primary.Core.Validate.{tally_decision}
use nero_consensus.Primary.Core.Handlers.{load_election}
use nero_consensus.Primary.Core.Loads.{round_of}
use nero_consensus.Primary.Core.Rounds.{Filed}
use nero_consensus.Primary.Core.Tallied.{key_hash}
use nero_consensus.Primary.Core.Views.{view_of, from_votes-view_of}
use nero_consensus.Primary.Core.Concord.{contains-map, Distinct-map}
use nero_consensus.Primary.Core.Honest.{Backing, Judgement, Holds}
use nero_consensus.Protocol.Phases.{total, dropped, Knows}
use nero_consensus.Protocol.Shares.{
  IsPart, tally_of, part_Knows, length-view_of, tally-view_of, decides_few_of,
}
use nero_consensus.Protocol.Network.{IsInjective, IsFromPeer, IsMember}
use nero_consensus.Protocol.Members.{
  IsHonest, held_by, accepted, held-signer, held-SentIn, held-accepted, accepted-held, member-Full,
}

-- A node's own vote follows the share that its round counts, of which one vote at least decides nothing.
pub record Rests (cast : Tally) (w : PrimaryVote) : Type 0 where
  pub counted : Tally
  pub knows : Knows counted cast
  pub open_ : counted.zero_decides + counted.one_decides < total counted
  pub value : w.value ≡ (tally_decision (dropped counted)).value
  pub vote_type : w.vote_type ≡ (tally_decision (dropped counted)).vote_type

-- The vote of another node follows a share that is counted in full.
pub record Agrees (cast : Tally) (w : PrimaryVote) : Type 0 where
  pub counted : Tally
  pub knows : Knows counted cast
  pub value : w.value ≡ (tally_decision counted).value
  pub vote_type : w.vote_type ≡ (tally_decision counted).vote_type

abbrev pub Follows : Tally → PrimaryVote → Type 0
Follows cast w = Rests cast w ⊎ Agrees cast w

module _ (env : Env) (nodes : List PublicKey) (cores : PublicKey → Core)
    (byzantine : PublicKey → Bool)
    (members : (n : PublicKey) → contains n nodes ≡ true → IsMember env nodes cores byzantine n)
    (only : IsInjective env) (h : BlockHash) where
  abbrev pub votes_in : Round → PublicKey → Option PrimaryVote
  votes_in = accepted env nodes cores byzantine members only h

  module _ (m : PublicKey) (honest : IsHonest env nodes cores byzantine members only m) where
    -- The node holds these votes in the round.
    abbrev AreHeld : Round → Map VoteHash PrimaryVote → Type 0
    AreHeld r votes =
        All (Holds env m (IsFromPeer nodes cores m) h (load_election (cores m) h) r) votes

    hash_of :
        (r : Round) (k : VoteHash) (v : PrimaryVote)
        → get k (round_of (cores m) h r).validated_votes ≡ some v
        → k ≡ key_hash env v.signer
    unfolding digest
    hash_of r k v held =
        (All-get (Filed env h r) k (round_of (cores m) h r).validated_votes {v = v}
          ((member-Full env nodes cores byzantine members only h m honest).base.rounds
            r).sound.filed
          held).0

    held_of :
        (r : Round) (k : VoteHash) (v : PrimaryVote)
        → get k (round_of (cores m) h r).validated_votes ≡ some v
        → held_by env nodes cores byzantine members only h m r v.signer ≡ some v
    held_of r k v held =
        subst (λ j. get j (round_of (cores m) h r).validated_votes ≡ some v) (hash_of r k v held)
          held

    keys-nodes :
        (r : Round) (votes : Map VoteHash PrimaryVote)
        → AreHeld r votes
        → All (λ k. contains k (map (key_hash env) nodes) ≡ true) (keys votes)
    keys-nodes r [] held = tt
    keys-nodes r ((k, v) ∷ votes) held = (
      subst (λ j. contains j (map (key_hash env) nodes) ≡ true) (sym (hash_of r k v held.0))
          (contains-map (key_hash env) v.signer nodes
            (held-SentIn env nodes cores byzantine members only h m honest r v.signer v
              (held_of r k v held.0)).0),
      keys-nodes r votes held.1,
    )

    held-IsPart :
        (r : Round) (votes : Map VoteHash PrimaryVote)
        → AreHeld r votes
        → IsPart (view_of (key_hash env) votes) (votes_in r)
    held-IsPart r votes held n v here =
        held-accepted env nodes cores byzantine members only h m honest r n v (
          All-get (Holds env m (IsFromPeer nodes cores m) h (load_election (cores m) h) r)
            (key_hash env n) votes {v = v} held here)

    -- One vote is the node's own, and any other was received.
    own_or_small :
        (r : Round) (k : VoteHash) (v : PrimaryVote)
        → get k (round_of (cores m) h r).validated_votes ≡ some v
        → (k ≡ key_hash env m) ⊎ (r + 1 < 2 ^ 32)
    own_or_small r k v held =
        let (_, in_round, _, known) =
          held-signer env nodes cores byzantine members only h m honest r v.signer v
            (held_of r k v held) in
        elim known [
          | inl ((there, foreign, out, small), judged) ↦ inr (omega (arith, small, in_round))
          | inr mine ↦
              let (me, _, _, _) =
                held-signer env nodes cores byzantine members only h m honest v.round m v mine in
              inl (hash_of r k v held ∙ ap (key_hash env) me)
        ]

    quorum_small :
        (r : Round) (votes : Map VoteHash PrimaryVote)
        → AreHeld r votes
        → Distinct (keys votes)
        → quorum ≤ length votes
        → r + 1 < 2 ^ 32
    unfolding contains
    quorum_small r [] held distinct enough = absurd (omega arith)
    quorum_small r ((k, v) ∷ []) held distinct enough = absurd (omega arith)
    quorum_small r ((k, v) ∷ (j, w) ∷ votes) held distinct enough =
        elim (own_or_small r k v held.0) [
          | inr small ↦ small
          | inl mine ↦ elim (own_or_small r j w held.1.0) [
            | inr small ↦ small
            | inl too ↦ absurd (ground (arith, mine, too, distinct.0))
          ]
        ]

    module _ (size : length nodes ≡ number_of_total_nodes) (distinct : Distinct nodes) where
      apart : Distinct (map (key_hash env) nodes)
      apart = Distinct-map (key_hash env) nodes only distinct

      pub Backing-Rests :
          (w : PrimaryVote)
          → Backing env m (IsFromPeer nodes cores m) h (load_election (cores m) h) w
          → (r : Round) × (w.round ≡ r + 1) × Rests (tally_of (votes_in r) nodes) w
      Backing-Rests w b =
          let votes = b.view.validated_votes in
          let held = keys-nodes b.previous votes b.kept in
          let size_of =
            length-view_of nodes size (key_hash env) votes apart b.sound.distinct held in
          let tally : b.view.tally ≡ dropped (tally_of (view_of (key_hash env) votes) nodes) =
            b.counts ∙ tally-view_of nodes size (key_hash env) votes apart b.sound.distinct held in
          let enough : quorum ≤ length (values votes) =
            omega (arith, length-map (λ e. e.1) votes, b.enough) in
          let small = quorum_small b.previous votes b.kept b.sound.distinct b.enough in
          (
            b.previous,
            omega (arith, b.follows, small),
            record {
              counted = tally_of (view_of (key_hash env) votes) nodes;
              knows =
                  part_Knows nodes size (view_of (key_hash env) votes) (votes_in b.previous)
                    (held-IsPart b.previous votes b.kept) (omega (arith, size_of));
              open_ =
                  decides_few_of nodes size (key_hash env) votes apart b.sound.distinct held
                    (key_hash env m) {v = b.mine} b.held b.open_;
              value = b.value ∙ ap (λ t. (tally_decision t).value) tally;
              vote_type = b.vote_type ∙ ap (λ t. (tally_decision t).vote_type) tally;
            },
          )

      pub Judgement-Agrees :
          (w : PrimaryVote)
          → Judgement env m (IsFromPeer nodes cores m) h (load_election (cores m) h) w
          → (r : Round) × (w.round ≡ r + 1) × Agrees (tally_of (votes_in r) nodes) w
      Judgement-Agrees w j =
          let held = keys-nodes j.previous j.seen j.held in
          let size_of = length-view_of nodes size (key_hash env) j.seen apart j.distinct held in
          let tally = from_votes-view_of (key_hash env) j.seen nodes apart j.distinct held in
          let enough : quorum ≤ length (values j.seen) =
            omega (arith, length-map (λ e. e.1) j.seen, j.enough) in
          (
            j.previous,
            j.follows,
            record {
              counted = tally_of (view_of (key_hash env) j.seen) nodes;
              knows =
                  part_Knows nodes size (view_of (key_hash env) j.seen) (votes_in j.previous)
                    (held-IsPart j.previous j.seen j.held) (omega (arith, size_of));
              value = j.value ∙ ap (λ t. (tally_decision t).value) tally;
              vote_type = j.vote_type ∙ ap (λ t. (tally_decision t).vote_type) tally;
            },
          )

  -- An accepted vote of round 0 is an initial vote, and one of a later round follows the votes of the
  -- round before.
  pub accepted-Follows :
      length nodes ≡ number_of_total_nodes
      → Distinct nodes
      → (r : Round) (n : PublicKey) (w : PrimaryVote) → votes_in r n ≡ some w
      → ((r ≡ 0) × (w.vote_type ≡ initial_vote))
        ⊎ ((p : Round) × (r ≡ p + 1) × Follows (tally_of (votes_in p) nodes) w)
  accepted-Follows size distinct r n w found =
      let (m, honest, held) = accepted-held env nodes cores byzantine members only h r n w found in
      let (_, same, _, known) =
        held-signer env nodes cores byzantine members only h m honest r n w held in
      elim known [
        | inl (heard, inl (first, kind)) ↦ inl (sym same ∙ first, kind)
        | inl (heard, inr j) ↦
            let (p, after, agrees) = Judgement-Agrees m honest size distinct w j in
            inr (p, sym same ∙ after, inr agrees)
        | inr mine ↦
            elim ((member-Full env nodes cores byzantine members only h m honest).base.justified
              w.round w mine) [
                | inl (first, kind) ↦ inl (sym same ∙ first, kind)
                | inr b ↦
                    let (p, after, rests) = Backing-Rests m honest size distinct w b in
                    inr (p, sym same ∙ after, inl rests)
              ]
      ]
