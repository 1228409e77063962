-- ===== src/Simulation/Delayed.antt =====
-- The loop of node/src/consensus.rs that lets delayed votes arrive, against what it computes.
use nero_consensus.Prelude.{
  ◌≡◌, refl, sym, ◌∙◌, Bool, List, [], ◌∷◌, ◌++◌, map, ◌==◌, if◌then◌else◌, arith,
}
use mathlib.Core.List.{append-nil, append_assoc}
use nero_consensus.Prelude.Sets.{contains, contains-append}
use nero_consensus.Simulation.{Ballot, delayed, zero, one, ballot_eq}
use nero_consensus.Simulation.Turn.{deliver}

-- What becomes of a vote, when the votes of its list are given.
abbrev pub fill : Bool → Ballot → Ballot
fill seen_one v = if v == delayed then (if seen_one then one else zero) else v

same_one :
    (done rest : List Ballot) (v : Ballot) (b : Bool)
    → contains one (done ++ v ∷ rest) ≡ b
    → contains one ((done ++ fill b v ∷ []) ++ rest) ≡ b
unfolding contains
same_one done rest v b h = rw (append_assoc done (fill b v ∷ []) rest) (
    ground (arith, contains-append one done (v ∷ rest), contains-append one done (fill b v ∷ rest)))

deliver_from :
    (done rest : List Ballot) (b : Bool)
    → contains one (done ++ rest) ≡ b
    → deliver done rest ≡ done ++ map (fill b) rest
unfolding deliver
deliver_from done [] b h = sym (append-nil done)
deliver_from done (v ∷ rest) b h = rw h (
    deliver_from (done ++ fill b v ∷ []) rest b (same_one done rest v b h)
    ∙ append_assoc done (fill b v ∷ []) (map (fill b) rest))

-- The loop changes each -1 and nothing else: to 1 if the list held a 1 at the start, else to 0,
-- although it looks for a 1 in the list that it is changing.
pub deliver-fill : (votes : List Ballot) → deliver [] votes ≡ map (fill (contains one votes)) votes
deliver-fill votes = deliver_from [] votes (contains one votes) refl
