-- ===== src/Primary/Core/Counted.antt =====
-- primary/src/core.rs: the counters of a round against the votes that the round holds.
use nero_consensus.Prelude.{
  ◌%◌, ◌^◌, ◌≡◌, refl, inl, inr, Bool, Bool-cases, ◌&&◌, some, List, [], ◌∷◌, ◌∙◌, ap, arith, ◌==◌,
  nat_eq, if◌then◌else◌,
}
use nero_consensus.Prelude.Map.{values}
use nero_consensus.Random.{Rng}
use nero_consensus.Crypto.{PublicKey}
use nero_consensus.Network.Address.{SocketAddr}
use nero_consensus.Primary.Vote.{
  BlockHash, Round, Value, VoteType, PrimaryVote, decide, type_eq, value_eq,
}
use nero_consensus.Primary.Election.Tallies.{
  entry, count, counted, decides_zero, from_votes-entry, tally_all-from_votes,
}
use nero_consensus.Primary.Core.State.{Core, Env, spawn}
use nero_consensus.Primary.Core.Handlers.{Event, run}
use nero_consensus.Primary.Core.Loads.{round_of}
use nero_consensus.Primary.Core.Tallied.{IsAlone, run-CountsVotes}

count-counted :
    (x : Value) (y : VoteType) (votes : List PrimaryVote)
    → count x y (counted votes) ≡ (if y == decide && x == Value.zero then 0 else count x y votes)
unfolding count counted
count-counted x y [] = ground arith
count-counted x y (v ∷ votes) = elim (Bool-cases (decides_zero v)) [
  | inl dropped ↦ ground (arith, count-counted x y votes)
  | inr kept ↦ ground (arith, count-counted x y votes)
]

-- In every round of every election, as a node has it after any events, each counter of the tally is the
-- number, as a `u64`, of the votes for its value and of its type that the round holds, except that the
-- counter of the votes that decide zero stays 0, provided that no other key has the digest of the
-- node's own.
pub run-entry :
    (env : Env) (id : PublicKey) (peers : List (PublicKey × SocketAddr)) (byzantine : Bool)
    (rng seed : Rng) (events : List Event) (core : Core) (h : BlockHash) (r : Round)
    → IsAlone env id
    → run (spawn env id peers byzantine rng seed) events ≡ some core
    → (x : Value) (y : VoteType)
    → entry x y (round_of core h r).tally ≡ (
        if y == decide && x == Value.zero
        then 0
        else count x y (values (round_of core h r).validated_votes) % 2 ^ 64)
run-entry env id peers byzantine rng seed events core h r alone ran x y =
    let votes = values (round_of core h r).validated_votes in
    ap (entry x y) (
      run-CountsVotes env id peers byzantine rng seed events core h r alone ran
      ∙ tally_all-from_votes votes)
    ∙ from_votes-entry x y (counted votes)
    ∙ ap (λ n. n % 2 ^ 64) (count-counted x y votes)
    ∙ mod_if
  where
    mod_if :
        (if y == decide && x == Value.zero
            then 0
            else count x y (values (round_of core h r).validated_votes))
          % 2 ^ 64
        ≡ (if y == decide && x == Value.zero
            then 0
            else count x y (values (round_of core h r).validated_votes) % 2 ^ 64)
    mod_if = elim (Bool-cases (y == decide && x == Value.zero)) [
      | inl dropped ↦ rw dropped refl
      | inr kept ↦ rw kept refl
    ]
