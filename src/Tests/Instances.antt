-- ===== src/Tests/Instances.antt =====
-- node/src/consensus.rs on concrete draws.
use nero_consensus.Prelude.{
  ℕ, ◌≡◌, refl, none, some, List, [], ◌∷◌, get_elem?, unwrap_or, nat_eq, ap, ◌>>=◌,
}
use nero_consensus.Prelude.Map.{Map, get, insert}
use nero_consensus.Prelude.Sets
use nero_consensus.Prelude.Map
use nero_consensus.Random
use nero_consensus.Random.{Rng}
use nero_consensus.Simulation
use nero_consensus.Simulation.{Sim, Ballot, delayed, zero, one, ballot_eq, start, new_sim, for_each}
use nero_consensus.Simulation.Turn
use nero_consensus.Simulation.Turn.{turns, deliver, advance}
use nero_consensus.Simulation.Delayed.{deliver-fill}
use nero_consensus.Simulation.Decisions.{turns-HasDecided}
use nero_consensus.Simulation.Exclusion.{turns-excluded}

abbrev dice : List ℕ → Rng
dice draws = record { draw = λ i. unwrap_or (get_elem? draws i) 0; position = 0 }

-- Draws with which the nodes do not agree.
abbrev split_draws : List ℕ
split_draws = 1 ∷ 0 ∷ 0 ∷ 0 ∷ 0 ∷ 1 ∷ 0 ∷ 0 ∷ 1 ∷ 1 ∷ 0 ∷ 0 ∷ 0 ∷ 1 ∷ 1 ∷ 2 ∷ 1 ∷ 1 ∷ 1 ∷ []

-- Draws with which they do, two of them a turn before the third.
abbrev joint_draws : List ℕ
joint_draws = 1 ∷ 1 ∷ 0 ∷ 1 ∷ 1 ∷ 1 ∷ 1 ∷ 1 ∷ 1 ∷ 0 ∷ 0 ∷ 1 ∷ 0 ∷ 0 ∷ 1 ∷ 2 ∷ 2 ∷ 2 ∷ []

abbrev begun : List ℕ → Sim
begun draws = unwrap_or (start (dice draws)) (new_sim (dice draws))

abbrev after : ℕ → List ℕ → Sim
after n draws = elim (turns n (begun draws)) [ none ↦ begun draws | some r ↦ r.0 ]

-- Node 2 decides 1, the other two decide 0, and the assertion of the next turn stops the program.
split_early : (after 3 split_draws).decided ≡ (2, one) ∷ []
unfolding Map.get Map.insert Sets.contains Random.gen_range start Simulation.start_honest
    Simulation.honest_votes Simulation.choose Simulation.cast_byzantine Simulation.byzantine_vote
    Simulation.for_each Simulation.assert_voted turns Turn.turn Turn.print_votes Turn.advance
    Turn.count_round Turn.vote Turn.vote_undecided Turn.vote_counted Turn.vote_next Turn.try_decide
    Turn.arrive deliver Turn.conclude Turn.byzantine_turn Turn.all_decided
split_early = refl

split_clash :
    (for_each advance 0 3 (after 3 split_draws) >>= (λ s. some s.decided))
    ≡ some ((2, one) ∷ (0, zero) ∷ (1, zero) ∷ [])
unfolding Map.get Map.insert Sets.contains Random.gen_range start Simulation.start_honest
    Simulation.honest_votes Simulation.choose Simulation.cast_byzantine Simulation.byzantine_vote
    Simulation.for_each Simulation.assert_voted turns Turn.turn Turn.print_votes Turn.advance
    Turn.count_round Turn.vote Turn.vote_undecided Turn.vote_counted Turn.vote_next Turn.try_decide
    Turn.arrive deliver Turn.conclude Turn.byzantine_turn Turn.all_decided
split_clash = refl

split_panics : turns 4 (begun split_draws) ≡ none
unfolding Map.get Map.insert Sets.contains Random.gen_range start Simulation.start_honest
    Simulation.honest_votes Simulation.choose Simulation.cast_byzantine Simulation.byzantine_vote
    Simulation.for_each Simulation.assert_voted turns Turn.turn Turn.print_votes Turn.advance
    Turn.count_round Turn.vote Turn.vote_undecided Turn.vote_counted Turn.vote_next Turn.try_decide
    Turn.arrive deliver Turn.conclude Turn.byzantine_turn Turn.all_decided
split_panics = refl

joint_agrees : (turns 9 (begun joint_draws) >>= (λ r. some r.1)) ≡ some (some one)
unfolding Map.get Map.insert Sets.contains Random.gen_range start Simulation.start_honest
    Simulation.honest_votes Simulation.choose Simulation.cast_byzantine Simulation.byzantine_vote
    Simulation.for_each Simulation.assert_voted turns Turn.turn Turn.print_votes Turn.advance
    Turn.count_round Turn.vote Turn.vote_undecided Turn.vote_counted Turn.vote_next Turn.try_decide
    Turn.arrive deliver Turn.conclude Turn.byzantine_turn Turn.all_decided
joint_agrees = refl

joint_begun : start (dice joint_draws) ≡ some (begun joint_draws)
unfolding Map.get Map.insert Sets.contains Random.gen_range start Simulation.start_honest
    Simulation.honest_votes Simulation.choose Simulation.cast_byzantine Simulation.byzantine_vote
    Simulation.for_each Simulation.assert_voted turns Turn.turn Turn.print_votes Turn.advance
    Turn.count_round Turn.vote Turn.vote_undecided Turn.vote_counted Turn.vote_next Turn.try_decide
    Turn.arrive deliver Turn.conclude Turn.byzantine_turn Turn.all_decided
joint_begun = refl

joint_half : (after 2 joint_draws).decided ≡ (1, one) ∷ (2, one) ∷ []
unfolding Map.get Map.insert Sets.contains Random.gen_range start Simulation.start_honest
    Simulation.honest_votes Simulation.choose Simulation.cast_byzantine Simulation.byzantine_vote
    Simulation.for_each Simulation.assert_voted turns Turn.turn Turn.print_votes Turn.advance
    Turn.count_round Turn.vote Turn.vote_undecided Turn.vote_counted Turn.vote_next Turn.try_decide
    Turn.arrive deliver Turn.conclude Turn.byzantine_turn Turn.all_decided
joint_half = refl

joint_next : turns 1 (after 2 joint_draws) ≡ some (after 3 joint_draws, some one)
unfolding Map.get Map.insert Sets.contains Random.gen_range start Simulation.start_honest
    Simulation.honest_votes Simulation.choose Simulation.cast_byzantine Simulation.byzantine_vote
    Simulation.for_each Simulation.assert_voted turns Turn.turn Turn.print_votes Turn.advance
    Turn.count_round Turn.vote Turn.vote_undecided Turn.vote_counted Turn.vote_next Turn.try_decide
    Turn.arrive deliver Turn.conclude Turn.byzantine_turn Turn.all_decided
joint_next = refl

joint_whole : turns 3 (begun joint_draws) ≡ some (after 3 joint_draws, some one)
unfolding Map.get Map.insert Sets.contains Random.gen_range start Simulation.start_honest
    Simulation.honest_votes Simulation.choose Simulation.cast_byzantine Simulation.byzantine_vote
    Simulation.for_each Simulation.assert_voted turns Turn.turn Turn.print_votes Turn.advance
    Turn.count_round Turn.vote Turn.vote_undecided Turn.vote_counted Turn.vote_next Turn.try_decide
    Turn.arrive deliver Turn.conclude Turn.byzantine_turn Turn.all_decided
joint_whole = refl

turns-HasDecided_example : get 1 (after 3 joint_draws).decided ≡ some one
unfolding get
turns-HasDecided_example =
    turns-HasDecided 1 (after 2 joint_draws) 1 one (ap (get 1) joint_half) joint_next

turns-excluded_example : (after 3 joint_draws).excluded_nodes ≡ []
turns-excluded_example = turns-excluded (dice joint_draws) 3 joint_begun joint_whole

deliver-fill_example : deliver [] (one ∷ delayed ∷ delayed ∷ one ∷ []) ≡ one ∷ one ∷ one ∷ one ∷ []
unfolding Sets.contains
deliver-fill_example = deliver-fill (one ∷ delayed ∷ delayed ∷ one ∷ [])

-- A vote that nobody has seen yet arrives as 0, whatever it was.
deliver_unseen :
    deliver [] (delayed ∷ delayed ∷ delayed ∷ delayed ∷ []) ≡ zero ∷ zero ∷ zero ∷ zero ∷ []
unfolding deliver Sets.contains
deliver_unseen = refl
