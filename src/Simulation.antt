-- ===== src/Simulation.antt =====
-- node/src/consensus.rs: the simulation of four nodes, one of them byzantine. `none` is a panic; the
-- printed lines are left out.
pub mod Turn
pub mod Instances
pub mod Loops
pub mod Exclusion
pub mod Delayed
pub mod Decisions
use nero_consensus.Prelude.{
  ℕ, ◌+◌, ◌-◌, ◌*◌, ◌/◌, ◌%◌, ◌^◌, ◌≡◌, ◌↔◌, suc, Bool, true, false, not, ◌&&◌, Option, none, some,
  List, [], ◌∷◌, ◌++◌, leb, ltb, ◌==◌, nat_eq, PartialEq, arith, if◌then◌else◌, length, get_elem?,
  replicate, ◌>>=◌,
}
use nero_consensus.Prelude.Map.{Map, get, insert, contains_key}
use nero_consensus.Prelude.Sets.{contains}
use nero_consensus.Random.{Rng, gen_range}

abbrev pub number_of_nodes : ℕ
number_of_nodes = 4

abbrev pub number_of_byzantine_nodes : ℕ
number_of_byzantine_nodes = (number_of_nodes - 1) / 3

abbrev pub number_of_honest_nodes : ℕ
number_of_honest_nodes = number_of_nodes - number_of_byzantine_nodes

abbrev pub quorum : ℕ
quorum = number_of_byzantine_nodes * 2 + 1

-- The `i32` of a vote: -1 for one that has not arrived, 0 and 1.
pub data Ballot : Type 0 where
  delayed zero one : Ballot

abbrev ballot_beq : Ballot → Ballot → Bool
ballot_beq delayed delayed = true
ballot_beq zero zero = true
ballot_beq one one = true
ballot_beq _ _ = false

pub ballot_beq_iff : (a b : Ballot) → (ballot_beq a b ≡ true) ↔ (a ≡ b)
ballot_beq_iff a b = ground arith

instance abbrev pub ballot_eq : PartialEq Ballot
ballot_eq = record { beq = ballot_beq; beq_iff = ballot_beq_iff }

-- The key `(usize, usize)` of a vote.
pub record Slot : Type 0 where
  pub node : ℕ
  pub round : ℕ

abbrev slot_beq : Slot → Slot → Bool
slot_beq a b = a.node == b.node && a.round == b.round

pub slot_beq_iff : (a b : Slot) → (slot_beq a b ≡ true) ↔ (a ≡ b)
slot_beq_iff a b = ground arith

instance abbrev pub slot_eq : PartialEq Slot
slot_eq = record { beq = slot_beq; beq_iff = slot_beq_iff }

-- The locals of one instance. The votes of a slot are those that each node gets to see.
pub record Sim : Type 0 where
  pub votes : Map Slot (List Ballot)
  pub nodes : Map ℕ ℕ
  pub zero_quorum : Map ℕ (List ℕ)
  pub one_quorum : Map ℕ (List ℕ)
  pub decided : Map ℕ Ballot
  pub excluded_nodes : List ℕ
  pub rng : Rng

abbrev pub new_sim : Rng → Sim
new_sim rng = record {
  votes = [];
  nodes = [];
  zero_quorum = [];
  one_quorum = [];
  decided = [];
  excluded_nodes = [];
  rng = rng;
}

-- `choose_weighted` of two items of the same weight.
unfoldable pub choose : Ballot → Ballot → Rng → Ballot × Rng
unfolding gen_range
choose a b rng = let (k, rng1) = gen_range 2 rng in (if k == 0 then a else b, rng1)

-- What each of `n` nodes sees of an honest vote.
unfoldable pub honest_votes : ℕ → Ballot → Rng → List Ballot × Rng
unfolding choose
honest_votes ℕ.zero vote rng = ([], rng)
honest_votes (suc n) vote rng =
    let (seen, rng1) = choose vote delayed rng in
    let (rest, rng2) = honest_votes n vote rng1 in (seen ∷ rest, rng2)

-- The first vote of node `i`.
unfoldable pub start_honest : ℕ → Sim → Sim
unfolding honest_votes
start_honest i s =
    let (vote, rng1) = choose zero one s.rng in
    let (seen, rng2) = honest_votes number_of_nodes vote rng1 in
    record s {
      votes = insert (record { node = i; round = 0 }) seen s.votes;
      nodes = insert i 0 s.nodes;
      zero_quorum = insert i [] s.zero_quorum;
      one_quorum = insert i [] s.one_quorum;
      rng = rng2;
    }

-- `gen_range(-1..2)`
unfoldable pub byzantine_vote : Rng → Ballot × Rng
unfolding gen_range
byzantine_vote rng =
    let (k, rng1) = gen_range 3 rng in
    (if k == 0 then delayed else if k == 1 then zero else one, rng1)

-- The vote of a byzantine node in a round, the same for all.
unfoldable pub cast_byzantine : ℕ → ℕ → Sim → Sim
unfolding byzantine_vote
cast_byzantine i round s =
    let (vote, rng1) = byzantine_vote s.rng in
    record s {
      votes = insert (record { node = i; round = round }) (replicate number_of_nodes vote) s.votes;
      nodes = insert i round s.nodes;
      rng = rng1;
    }

-- A loop `for i in start..start + n`, whose body may panic.
unfoldable pub for_each : (ℕ → Sim → Option Sim) → ℕ → ℕ → Sim → Option Sim
for_each body start ℕ.zero s = some s
for_each body start (suc n) s = do s1 ← body start s; for_each body (start + 1) n s1

-- `assert_eq!(votes.get(&(i, 0)).unwrap().len(), NUMBER_OF_NODES)`
unfoldable pub assert_voted : ℕ → Sim → Option Sim
assert_voted i s = do
  votes ← get (record { node = i; round = 0 }) s.votes
  if length votes == number_of_nodes then some s else none

-- The instance before its loop.
unfoldable pub start : Rng → Option Sim
unfolding start_honest cast_byzantine for_each assert_voted
start rng = do
  s1 ← for_each (λ i s. some (start_honest i s)) 0 number_of_honest_nodes (new_sim rng)
  s2 ←
      for_each (λ i s. some (cast_byzantine (i + number_of_honest_nodes) 0 s)) 0
        number_of_byzantine_nodes s1
  for_each assert_voted 0 number_of_nodes s2
