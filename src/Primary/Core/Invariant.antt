-- ===== src/Primary/Core/Invariant.antt =====
-- The invariant of a node, and the changes that keep it.
use nero_consensus.Prelude.{
  ◌≤◌, ◌≡◌, refl, ◌⊎◌, Bool, true, false, ◌&&◌, none, some, List, [], ◌∷◌, arith, ◌==◌, nat_eq, ◌∙◌,
  sym, All, All-map, length,
}
use nero_consensus.Prelude.Map.{get, insert, get-insert}
use nero_consensus.Prelude.Sets.{IsSorted}
use nero_consensus.Random.{Rng}
use nero_consensus.Primary.General.{quorum}
use nero_consensus.Primary.Vote.{VoteHash, BlockHash, Round, PrimaryVote, Value, initial_vote}
use nero_consensus.Primary.Message.{PrimaryMessage, send_vote}
use nero_consensus.Primary.Election.{RoundState, Election}
use nero_consensus.Primary.Core.State.{Core, Sent, broadcast_message}
use nero_consensus.Primary.Core.Handlers.{load_election, load_round, store_election, cast_vote}
use nero_consensus.Primary.Core.Loads.{
  round_of, put_round, load_election-store, load_election-store_self, store_replace, store_read,
  load_round-put,
}
use nero_consensus.Primary.Core.Rounds.{
  IsSound, Sound, AllSound, put_round-Sound, cast_vote-IsSound,
}

-- A first vote has no proof; any other has the hashes of a quorum.
abbrev pub IsProper : PrimaryVote → Type 0
IsProper v =
    ((v.round ≡ 0) × (v.vote_type ≡ initial_vote) × (v.proof ≡ none))
    ⊎ ((hashes : List VoteHash) × (v.proof ≡ some hashes)
        × (quorum ≤ length hashes)
        × IsSorted hashes)

-- The node cast this vote, and its round's state says so.
abbrev pub IsCast : Core → PrimaryMessage → Type 0
IsCast core (send_vote v) =
    (v.signer ≡ core.id) × ((round_of core v.election_hash v.round).voted ≡ true) × IsProper v
IsCast core _ = ⊥

abbrev pub same_round : PrimaryMessage → PrimaryMessage → Bool
same_round (send_vote v) (send_vote w) = v.election_hash == w.election_hash && v.round == w.round
same_round _ _ = false

-- No two votes of the log are for one round of one election.
abbrev pub OnePerRound : List Sent → Type 0
OnePerRound [] = Unit {0}
OnePerRound (s ∷ log) = All (λ t. same_round s.message t.message ≡ false) log × OnePerRound log

-- A decided election is closed.
abbrev pub DecidedClosed : Core → Type 0
DecidedClosed core =
    (h : BlockHash) (v : Value)
    → get h core.decided ≡ some v
    → (load_election core h).is_decided ≡ true

pub record Inv (core : Core) : Type 0 where
  pub sound : AllSound core
  pub closed : DecidedClosed core
  pub cast : All (λ s. IsCast core s.message) core.log
  pub single : OnePerRound core.log

-- Rounds that stay voted keep the votes of the log cast.
pub IsCast-mono :
    (core core' : Core)
    → core'.id ≡ core.id
    → ((h : BlockHash) (r : Round)
        → (round_of core h r).voted ≡ true
        → (round_of core' h r).voted ≡ true)
    → (m : PrimaryMessage) → IsCast core m
    → IsCast core' m
IsCast-mono core core' e mono (send_vote v) c = (c.0 ∙ sym e, mono v.election_hash v.round c.1, c.2)
IsCast-mono core core' e mono _ c = absurd c

pub casts_mono :
    (core core' : Core)
    → core'.id ≡ core.id
    → ((h : BlockHash) (r : Round)
        → (round_of core h r).voted ≡ true
        → (round_of core' h r).voted ≡ true)
    → (log : List Sent) → All (λ s. IsCast core s.message) log
    → All (λ s. IsCast core' s.message) log
casts_mono core core' e mono log c =
    All-map _ _ (λ s. IsCast-mono core core' e mono s.message) log c

module _ (core : Core) (h : BlockHash) (e : Election) (r : Round) (rs : RoundState) where
  voted-put :
      ((load_round e h r).voted ≡ true → rs.voted ≡ true)
      → (j : BlockHash) (s : Round) → (round_of (store_election core h e) j s).voted ≡ true
      → (round_of (store_election core h (put_round r rs e)) j s).voted ≡ true
  voted-put keep j s v = ground (
    arith,
    load_election-store core h j e,
    load_election-store core h j (put_round r rs e),
    load_round-put e h r s rs,
  )

  -- A sound state that stays voted replaces that of a round.
  pub put_round-Inv :
      IsSound core.env h r rs
      → ((load_round e h r).voted ≡ true → rs.voted ≡ true)
      → Inv (store_election core h e)
      → Inv (store_election core h (put_round r rs e))
  unfolding store_election
  put_round-Inv s keep i = record {
    sound =
        store_replace (Sound core.env) core h e (put_round r rs e)
          (put_round-Sound core.env h r rs e s (store_read (Sound core.env h) core h e (i.sound h)))
          i.sound;
    closed = λ j v d. ground (
      arith,
      load_election-store core h j e,
      load_election-store core h j (put_round r rs e),
      i.closed j v d,
    );
    cast =
        casts_mono (store_election core h e) (store_election core h (put_round r rs e)) refl
          (voted-put keep) core.log i.cast;
    single = i.single;
  }

-- What the handlers change besides: the draws, and the votes seen.
pub note-Inv :
    (core : Core) (votes : List PrimaryVote) → Inv core → Inv (record core { sent_votes = votes })
unfolding load_election
note-Inv core votes i = record {
  sound = i.sound;
  closed = i.closed;
  cast = casts_mono core (record core { sent_votes = votes }) refl (λ h r v. v) core.log i.cast;
  single = i.single;
}

pub set_rng-Inv : (core : Core) (rng : Rng) → Inv core → Inv (record core { rng = rng })
unfolding load_election
set_rng-Inv core rng i = record {
  sound = i.sound;
  closed = i.closed;
  cast = casts_mono core (record core { rng = rng }) refl (λ h r v. v) core.log i.cast;
  single = i.single;
}

-- Reading an election and holding it is no change.
pub load-Inv :
    (core : Core) (h : BlockHash) → Inv core → Inv (store_election core h (load_election core h))
unfolding store_election
load-Inv core h i = record {
  sound = λ j. rw (load_election-store_self core h j) (i.sound j);
  closed = λ j v d. rw (load_election-store_self core h j) (i.closed j v d);
  cast =
      casts_mono core (store_election core h (load_election core h)) refl
        (λ j r v. rw (load_election-store_self core h j) v) core.log i.cast;
  single = i.single;
}

closed_after :
    (core : Core) (h : BlockHash) (e : Election) (v : Value)
    → ((j : BlockHash) (w : Value)
        → get j core.decided ≡ some w
        → (load_election (store_election core h e) j).is_decided ≡ true)
    → (j : BlockHash) (w : Value) → get j (insert h v core.decided) ≡ some w
    → (load_election (store_election core h (record e { is_decided = true })) j).is_decided ≡ true
closed_after core h e v closed j w d = ground (
  arith,
  get-insert h j v core.decided,
  load_election-store core h j e,
  load_election-store core h j (record e { is_decided = true }),
  closed j w,
)

voted_after :
    (core : Core) (h : BlockHash) (e : Election)
    → (j : BlockHash) (s : Round) → (round_of (store_election core h e) j s).voted ≡ true
    → (round_of (store_election core h (record e { is_decided = true })) j s).voted ≡ true
unfolding load_round
voted_after core h e j s v = ground (
  arith,
  load_election-store core h j e,
  load_election-store core h j (record e { is_decided = true }),
)

-- A decision closes the election.
pub decide-Inv :
    (core : Core) (h : BlockHash) (e : Election) (v : Value)
    → Inv (store_election core h e)
    → Inv (record (store_election core h (record e { is_decided = true })) {
      decided = insert h v core.decided;
    })
unfolding store_election load_election load_round
decide-Inv core h e v i = record {
  sound =
      store_replace (Sound core.env) core h e (record e { is_decided = true })
        (store_read (Sound core.env h) core h e (i.sound h)) i.sound;
  closed = closed_after core h e v i.closed;
  cast =
      casts_mono (store_election core h e)
        (record (store_election core h (record e { is_decided = true })) {
          decided = insert h v core.decided;
        })
        refl (voted_after core h e) core.log i.cast;
  single = i.single;
}

module _ (core : Core) (h : BlockHash) (e : Election) (r : Round) (rs : RoundState)
    (v : PrimaryVote) where
  fresh :
      (load_round e h r).voted ≡ false
      → v.round ≡ r
      → v.election_hash ≡ h
      → (m : PrimaryMessage) → IsCast (store_election core h e) m
      → same_round (send_vote v) m ≡ false
  fresh free er eh (send_vote w) c =
      ground (arith, c.1, load_election-store core h w.election_hash e)
  fresh free er eh _ c = refl

  voted_now :
      v.round ≡ r
      → v.election_hash ≡ h
      → rs.voted ≡ true
      → (round_of (store_election core h (put_round r rs e)) v.election_hash v.round).voted ≡ true
  voted_now er eh voted = ground (
    arith,
    load_election-store core h v.election_hash (put_round r rs e),
    load_round-put e h r v.round rs,
  )

module _ (core : Core) (h : BlockHash) (e : Election) (r : Round) (rs : RoundState)
    (v : PrimaryVote) where
  -- A vote is cast in a round without one.
  pub cast_vote-Inv :
      IsSound core.env h r rs
      → v.round ≡ r
      → v.election_hash ≡ h
      → v.signer ≡ core.id
      → IsProper v
      → (load_round e h r).voted ≡ false
      → Inv (store_election core h e)
      → Inv (store_election (cast_vote core rs v).1 h (put_round r (cast_vote core rs v).0 e))
  unfolding store_election cast_vote load_election broadcast_message
  cast_vote-Inv s er eh signed proper free i =
      let rs1 = (cast_vote core rs v).0 in
      let after = store_election (cast_vote core rs v).1 h (put_round r rs1 e) in
      let j =
        put_round-Inv core h e r rs1 (cast_vote-IsSound core h r rs v s er eh) (λ _. refl) i in
      record {
        sound = j.sound;
        closed = j.closed;
        cast = (
          (signed, voted_now core h e r rs1 v er eh refl, proper),
          casts_mono (store_election core h e) after refl (voted-put core h e r rs1 (λ _. refl))
              core.log i.cast,
        );
        single = (
          All-map _ _ (λ t. fresh core h e r rs v free er eh t.message) core.log i.cast,
          i.single,
        );
      }
