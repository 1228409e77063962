-- ===== src/Primary/Core/Tallied.antt =====
-- primary/src/core.rs: the tally of a round against the votes that the round holds.
use nero_consensus.Prelude.{
  ◌/◌, ◌^◌, ◌≡◌, refl, inl, inr, Bool, true, false, not, ◌||◌, none, some, List, [], ◌∷◌, ◌++◌, ◌∙◌,
  sym, arith, ◌==◌, nat_eq, Bool-cases, ap, absent_of, eq_of_beq,
}
use nero_consensus.Prelude.Map.{Map, get, insert, contains_key, values, insert_new, get-insert}
use nero_consensus.Random.{Rng}
use nero_consensus.Crypto.{PublicKey}
use nero_consensus.Network.Address.{SocketAddr}
use nero_consensus.Primary.Vote.{VoteHash, BlockHash, Round, PrimaryVote, digest}
use nero_consensus.Primary.Election.{RoundState, Tally, new_tally, tally_vote, add_to_tally}
use nero_consensus.Primary.Election.Tallies.{tally_all, tally_all-append}
use nero_consensus.Primary.Core.State.{Core, Env, spawn, vote_hash}
use nero_consensus.Primary.Core.Handlers.{cast_vote, admit_vote, Event, run}
use nero_consensus.Primary.Core.Loads.{round_of}
use nero_consensus.Primary.Core.EveryRound.{RoundLaws}
use nero_consensus.Primary.Core.EveryRound.Runs.{spawn-run-Every}

-- The digest of the votes of a key.
abbrev pub key_hash : Env → PublicKey → VoteHash
key_hash env key = env.sha512 key / 2 ^ 256

-- The tally is built from the votes that the round holds, one after the other.
abbrev pub CountsVotes : RoundState → Type 0
CountsVotes rs = rs.tally ≡ tally_all new_tally (values rs.validated_votes)

-- A round where this key has not voted holds no vote of that digest.
abbrev pub IsFree : VoteHash → RoundState → Type 0
IsFree own rs = (rs.voted || not (contains_key own rs.validated_votes)) ≡ true

abbrev Tallied : Env → PublicKey → BlockHash → Round → RoundState → Type 0
Tallied env id h r rs = CountsVotes rs × IsFree (key_hash env id) rs

values-append :
    (m : Map VoteHash PrimaryVote) (k : VoteHash) (v : PrimaryVote)
    → values (m ++ (k, v) ∷ []) ≡ values m ++ v ∷ []
values-append [] k v = refl
values-append (e ∷ m) k v = ap (λ vs. e.1 ∷ vs) (values-append m k v)

-- A vote of a new digest, counted and put into the round.
pub counts_new :
    (k : VoteHash) (v : PrimaryVote) (t : Tally) (m : Map VoteHash PrimaryVote)
    → get k m ≡ none
    → t ≡ tally_all new_tally (values m)
    → add_to_tally t v ≡ tally_all new_tally (values (insert k v m))
counts_new k v t m new eq =
    ap (λ u. add_to_tally u v) eq
    ∙ sym (tally_all-append new_tally (values m) v)
    ∙ ap (tally_all new_tally) (sym (ap values (insert_new k v m new) ∙ values-append m k v))

-- No other key has the digest of this one.
abbrev pub IsAlone : Env → PublicKey → Type 0
IsAlone env id = (key : PublicKey) → key_hash env key ≡ key_hash env id → key ≡ id

pub cast_vote-Tallied :
    (env : Env) (id : PublicKey) (core : Core) (v : PrimaryVote) (rs : RoundState)
    → core.env ≡ env
    → v.signer ≡ id
    → rs.voted ≡ false
    → Tallied env id v.election_hash v.round rs
    → Tallied env id v.election_hash v.round (cast_vote core rs v).0
unfolding cast_vote tally_vote digest
cast_vote-Tallied env id core v rs same signed free (counts, alone) =
    let own : vote_hash core v ≡ key_hash env id = rw (same, signed) in
    let absent : get (vote_hash core v) rs.validated_votes ≡ none =
      absent_of (get (vote_hash core v) rs.validated_votes) (rw own (ground arith)) in
    (counts_new (vote_hash core v) v rs.tally rs.validated_votes absent counts, refl)

pub admit_vote-Tallied :
    (env : Env) (id : PublicKey) (core : Core) (v : PrimaryVote) (rs : RoundState)
    → IsAlone env id
    → core.env ≡ env
    → core.id ≡ id
    → contains_key (vote_hash core v) rs.validated_votes ≡ false
    → Tallied env id v.election_hash v.round rs
    → Tallied env id v.election_hash v.round (admit_vote core rs v)
unfolding admit_vote tally_vote digest
admit_vote-Tallied env id core v rs alone same own new (counts, free) =
    let absent : get (vote_hash core v) rs.validated_votes ≡ none = ground arith in
    let counted = counts_new (vote_hash core v) v rs.tally rs.validated_votes absent counts in
    let hashed : vote_hash core v ≡ key_hash env v.signer = rw same in
    elim (Bool-cases (v.signer == core.id)) [
      | inl mine ↦ rw mine (counted, refl)
      | inr other ↦
          let apart : (vote_hash core v == key_hash env id) ≡ false =
            elim (Bool-cases (vote_hash core v == key_hash env id)) [
              | inl clash ↦
                  absurd (ground (arith, alone v.signer (sym hashed ∙ eq_of_beq _ _ clash)))
              | inr fine ↦ fine
            ] in
          rw other (
            counted,
            rw (get-insert (vote_hash core v) (key_hash env id) v rs.validated_votes, apart) free,
          )
    ]

counting_laws : (env : Env) (id : PublicKey) → IsAlone env id → RoundLaws env id (Tallied env id)
unfolding tally_all get
counting_laws env id alone = record {
  of_new = λ h r. (refl, refl);
  of_cast = cast_vote-Tallied env id;
  of_admit = λ core v rs. admit_vote-Tallied env id core v rs alone;
}

-- So it is in every round that a node comes to, provided that no other key has the digest of its own.
pub run-CountsVotes :
    (env : Env) (id : PublicKey) (peers : List (PublicKey × SocketAddr)) (byzantine : Bool)
    (rng seed : Rng) (events : List Event) (core : Core) (h : BlockHash) (r : Round)
    → IsAlone env id
    → run (spawn env id peers byzantine rng seed) events ≡ some core
    → CountsVotes (round_of core h r)
run-CountsVotes env id peers byzantine rng seed events core h r alone ran =
    ((spawn-run-Every (counting_laws env id alone) peers byzantine rng seed events ran).2 h r).0
