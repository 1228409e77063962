-- ===== src/Protocol/Phases.antt =====
-- The phases of an election: what votes a round may hold, and what the next one may hold then.
use nero_consensus.Prelude.{ℕ, ◌+◌, ◌≤◌, ◌<◌, ◌≡◌, ◌≢◌, arith, nat_eq}
use nero_consensus.Primary.General.{quorum, number_of_total_nodes}
use nero_consensus.Primary.Vote.{Value, initial_vote, decide, type_eq, value_eq}
use nero_consensus.Primary.Election.{Tally}
use nero_consensus.Primary.Core.Validate.{tally_decision}

-- How many votes a tally counts.
abbrev pub total : Tally → ℕ
total t =
    t.zero_votes + t.zero_commits + t.zero_decides + t.one_votes + t.one_commits + t.one_decides

-- No vote that commits or decides.
pub record Initial (t : Tally) : Type 0 where
  pub zero_commits : t.zero_commits ≡ 0
  pub zero_decides : t.zero_decides ≡ 0
  pub one_commits : t.one_commits ≡ 0
  pub one_decides : t.one_decides ≡ 0

-- Votes for one value alone, none of which decides.
abbrev pub Leaning : Value → Tally → Type 0
Leaning Value.zero t =
    (t.zero_decides ≡ 0) × (t.one_votes ≡ 0) × (t.one_commits ≡ 0) × (t.one_decides ≡ 0)
Leaning Value.one t =
    (t.one_decides ≡ 0) × (t.zero_votes ≡ 0) × (t.zero_commits ≡ 0) × (t.zero_decides ≡ 0)

-- Votes that commit to one value or decide it.
abbrev pub Locked : Value → Tally → Type 0
Locked Value.zero t =
    (t.zero_votes ≡ 0) × (t.one_votes ≡ 0) × (t.one_commits ≡ 0) × (t.one_decides ≡ 0)
Locked Value.one t =
    (t.one_votes ≡ 0) × (t.zero_votes ≡ 0) × (t.zero_commits ≡ 0) × (t.zero_decides ≡ 0)

-- What a node knows of a round: all of its votes but one at most, and a quorum in any case.
pub record Knows (m t : Tally) : Type 0 where
  pub zero_votes :
      (m.zero_votes ≤ t.zero_votes)
      × (t.zero_votes + total m ≤ m.zero_votes + number_of_total_nodes)
  pub zero_commits :
      (m.zero_commits ≤ t.zero_commits)
      × (t.zero_commits + total m ≤ m.zero_commits + number_of_total_nodes)
  pub zero_decides :
      (m.zero_decides ≤ t.zero_decides)
      × (t.zero_decides + total m ≤ m.zero_decides + number_of_total_nodes)
  pub one_votes :
      (m.one_votes ≤ t.one_votes) × (t.one_votes + total m ≤ m.one_votes + number_of_total_nodes)
  pub one_commits :
      (m.one_commits ≤ t.one_commits)
      × (t.one_commits + total m ≤ m.one_commits + number_of_total_nodes)
  pub one_decides :
      (m.one_decides ≤ t.one_decides)
      × (t.one_decides + total m ≤ m.one_decides + number_of_total_nodes)
  pub enough : quorum ≤ total m
  pub all : total t ≤ number_of_total_nodes

-- The tally that `tally_vote` builds drops the votes that decide zero.
abbrev pub dropped : Tally → Tally
dropped m = record m { zero_decides = 0 }

module _ (m t : Tally) (k : Knows m t) where
  pub Initial-step_zero :
      Initial t
      → quorum ≤ t.zero_votes
      → ((tally_decision (dropped m)).value ≡ Value.zero)
        × ((tally_decision (dropped m)).vote_type ≢ decide)
  unfolding tally_decision
  Initial-step_zero i q = ground arith

  pub Initial-step_one :
      Initial t
      → quorum ≤ t.one_votes
      → ((tally_decision (dropped m)).value ≡ Value.one)
        × ((tally_decision (dropped m)).vote_type ≢ decide)
  unfolding tally_decision
  Initial-step_one i q = ground arith

  pub Initial-step :
      Initial t
      → t.zero_votes < quorum
      → t.one_votes < quorum
      → (tally_decision (dropped m)).vote_type ≡ initial_vote
  unfolding tally_decision
  Initial-step i p q = ground arith

  pub Leaning-step :
      (x : Value)
      → Leaning x t
      → ((tally_decision (dropped m)).value ≡ x)
        × ((tally_decision (dropped m)).vote_type ≢ initial_vote)
  unfolding tally_decision
  Leaning-step Value.zero l = ground arith
  Leaning-step Value.one l = ground arith

  pub Locked-step :
      (x : Value)
      → m.zero_decides + m.one_decides < total m
      → Locked x t
      → ((tally_decision (dropped m)).value ≡ x)
        × ((tally_decision (dropped m)).vote_type ≢ initial_vote)
  unfolding tally_decision
  Locked-step Value.zero own l = ground arith
  Locked-step Value.one own l = ground arith

  -- With commits and decisions for one alone, the next vote decides.
  pub Locked-decide :
      m.zero_decides + m.one_decides < total m
      → Locked Value.one t
      → (tally_decision (dropped m)).vote_type ≡ decide
  unfolding tally_decision
  Locked-decide own l = ground arith

  -- With decisions alone, nobody votes on.
  pub decided_end :
      m.zero_decides + m.one_decides < total m → Locked Value.one t → t.one_commits ≡ 0 → ⊥
  decided_end own l c = omega arith

  -- The same of a share that is counted in full, of which every vote may decide.
  pub Initial-judged :
      Initial t
      → t.zero_votes < quorum
      → t.one_votes < quorum
      → (tally_decision m).vote_type ≡ initial_vote
  unfolding tally_decision
  Initial-judged i p q = ground arith

  pub Initial-judged_zero :
      Initial t
      → quorum ≤ t.zero_votes
      → ((tally_decision m).value ≡ Value.zero) × ((tally_decision m).vote_type ≢ decide)
  unfolding tally_decision
  Initial-judged_zero i q = ground arith

  pub Initial-judged_one :
      Initial t
      → quorum ≤ t.one_votes
      → ((tally_decision m).value ≡ Value.one) × ((tally_decision m).vote_type ≢ decide)
  unfolding tally_decision
  Initial-judged_one i q = ground arith

  pub Leaning-judged :
      (x : Value)
      → Leaning x t
      → ((tally_decision m).value ≡ x) × ((tally_decision m).vote_type ≢ initial_vote)
  unfolding tally_decision
  Leaning-judged Value.zero l = ground arith
  Leaning-judged Value.one l = ground arith

  pub Locked-judged :
      (x : Value)
      → Locked x t
      → ((tally_decision m).value ≡ x) × ((tally_decision m).vote_type ≢ initial_vote)
  unfolding tally_decision
  Locked-judged Value.zero l = ground arith
  Locked-judged Value.one l = ground arith

  pub Locked-judged_one : Locked Value.one t → (tally_decision m).vote_type ≡ decide
  unfolding tally_decision
  Locked-judged_one l = ground arith
