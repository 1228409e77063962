-- ===== src/Primary/Core/Concord.antt =====
-- Two nodes that have run, on the votes that they hold of one round.
use nero_consensus.Prelude.{
  ◌≤◌, ◌≡◌, ◌^◌, refl, inl, inr, Bool, true, false, some, List, [], ◌∷◌, ◌%◌, arith, ◌==◌, nat_eq,
  length, map, ◌∙◌, sym, ap, subst, All, All-map, Bool-cases, eq_of_beq, beq_self,
}
use nero_consensus.Prelude.Map.{Map, keys, values}
use nero_consensus.Prelude.Sets.{contains, Distinct}
use nero_consensus.Random.{Rng}
use nero_consensus.Crypto.{PublicKey}
use nero_consensus.Network.Address.{SocketAddr}
use nero_consensus.Primary.General.{number_of_total_nodes, number_of_byzantine_nodes}
use nero_consensus.Primary.Vote.{
  VoteHash, BlockHash, Round, Value, PrimaryVote, decide, type_eq, value_eq, digest,
}
use nero_consensus.Primary.Election.{RoundState, from_votes}
use nero_consensus.Primary.Election.Tallies.{count, from_votes-entry, tally_all-from_votes}
use nero_consensus.Primary.Core.State.{Core, Env, spawn}
use nero_consensus.Primary.Core.Validate.{tally_decision}
use nero_consensus.Primary.Core.Handlers.{Event, run}
use nero_consensus.Primary.Core.Loads.{round_of}
use nero_consensus.Primary.Core.Rounds.{IsSound, Filed}
use nero_consensus.Primary.Core.Invariant.{Inv}
use nero_consensus.Primary.Core.Runs.{spawn-Inv, run-Inv}
use nero_consensus.Primary.Core.EveryRound.{RoundLaws}
use nero_consensus.Primary.Core.EveryRound.Runs.{spawn-run-Every}
use nero_consensus.Primary.Core.Tallied.{key_hash, CountsVotes, run-CountsVotes}
use nero_consensus.Primary.Core.Acceptance.{counted-All}
use nero_consensus.Primary.Core.Agreement
use nero_consensus.Primary.Core.Agreement.{
  votes_of, equivocators, seen, Lacks, decision_of, decisions_agree,
}
use nero_consensus.Primary.Core.Views.{view_of, count-view_of, from_votes-view_of}

-- What holds of any round.
any_laws : (env : Env) (id : PublicKey) → RoundLaws env id (λ h r rs. Unit)
any_laws env id = record {
  of_new = λ h r. tt;
  of_cast = λ core v rs same signed free p. tt;
  of_admit = λ core v rs same own new p. tt;
}

-- The node has this state after some events.
pub record IsReached (env : Env) (id : PublicKey) (core : Core) : Type 0 where
  pub peers : List (PublicKey × SocketAddr)
  pub byzantine : Bool
  pub rng : Rng
  pub seed : Rng
  pub events : List Event
  pub ran : run (spawn env id peers byzantine rng seed) events ≡ some core

-- A vote of one of the nodes that decides nothing.
abbrev pub IsOpenVote : List PublicKey → PrimaryVote → Type 0
IsOpenVote nodes v = (contains v.signer nodes ≡ true) × ((v.vote_type == decide) ≡ false)

abbrev pub IsOpen : List PublicKey → RoundState → Type 0
IsOpen nodes rs = All (IsOpenVote nodes) (values rs.validated_votes)

pub contains-map :
    (hash : PublicKey → VoteHash) (n : PublicKey) (nodes : List PublicKey)
    → contains n nodes ≡ true
    → contains (hash n) (map hash nodes) ≡ true
unfolding contains
contains-map hash n [] h = absurd (ground arith)
contains-map hash n (m ∷ nodes) h = elim (Bool-cases (m == n)) [
  | inl same ↦ rw (eq_of_beq m n same, beq_self (hash n)) refl
  | inr other ↦ ground (arith, contains-map hash n nodes)
]

contains-map_ne :
    (hash : PublicKey → VoteHash) (n : PublicKey) (nodes : List PublicKey)
    → ((m : PublicKey) → hash m ≡ hash n → m ≡ n)
    → contains n nodes ≡ false
    → contains (hash n) (map hash nodes) ≡ false
unfolding contains
contains-map_ne hash n [] only h = refl
contains-map_ne hash n (m ∷ nodes) only h = elim (Bool-cases (hash m == hash n)) [
  | inl same ↦ absurd (ground (arith, only m (eq_of_beq (hash m) (hash n) same)))
  | inr other ↦ ground (arith, contains-map_ne hash n nodes only)
]

pub Distinct-map :
    (hash : PublicKey → VoteHash) (nodes : List PublicKey)
    → ((n m : PublicKey) → hash m ≡ hash n → m ≡ n)
    → Distinct nodes
    → Distinct (map hash nodes)
Distinct-map hash [] only h = tt
Distinct-map hash (n ∷ nodes) only h =
    (contains-map_ne hash n nodes (only n) h.0, Distinct-map hash nodes only h.1)

count-open :
    (x : Value) (nodes : List PublicKey) (votes : List PrimaryVote)
    → All (IsOpenVote nodes) votes
    → count x decide votes ≡ 0
unfolding count
count-open x nodes [] h = refl
count-open x nodes (v ∷ votes) h = ground (arith, count-open x nodes votes h.1, h.0.1)

keys-open :
    (env : Env) (h : BlockHash) (r : Round) (nodes : List PublicKey) (m : Map VoteHash PrimaryVote)
    → All (Filed env h r) m
    → All (IsOpenVote nodes) (values m)
    → All (λ k. contains k (map (key_hash env) nodes) ≡ true) (keys m)
unfolding digest
keys-open env h r nodes [] filed all = tt
keys-open env h r nodes ((k, v) ∷ m) filed all = (
  rw (filed.0.0) (contains-map (key_hash env) v.signer nodes all.0.0),
  keys-open env h r nodes m filed.1 all.1,
)

module _ (env : Env) (nodes : List PublicKey) (size : length nodes ≡ number_of_total_nodes)
    (distinct : Distinct nodes)
    (only : (n m : PublicKey) → key_hash env m ≡ key_hash env n → m ≡ n) where
  -- The votes of a round, by node.
  abbrev view : RoundState → Agreement.View
  view rs = view_of (key_hash env) rs.validated_votes

  open-tally :
      (h : BlockHash) (r : Round) (rs : RoundState)
      → IsSound env h r rs
      → CountsVotes rs
      → IsOpen nodes rs
      → rs.tally ≡ from_votes (votes_of (view rs) nodes)
  open-tally h r rs sound counts all =
      counts
      ∙ tally_all-from_votes (values rs.validated_votes)
      ∙ ap from_votes (
          counted-All (values rs.validated_votes)
            (All-map _ _ (λ v o. ground (arith, o.1)) (values rs.validated_votes) all))
      ∙ from_votes-view_of (key_hash env) rs.validated_votes nodes
          (Distinct-map (key_hash env) nodes only distinct) sound.distinct
          (keys-open env h r nodes rs.validated_votes sound.filed all)

  open-Lacks :
      (h : BlockHash) (r : Round) (rs : RoundState)
      → IsSound env h r rs
      → IsOpen nodes rs
      → Lacks decide (view rs) nodes
  open-Lacks h r rs sound all = (none_of Value.zero, none_of Value.one)
    where
      none_of : (x : Value) → seen x decide (view rs) nodes ≡ 0
      none_of x =
          from_votes-entry x decide (votes_of (view rs) nodes)
          ∙ ap (λ n. n % 2 ^ 64)
              (sym (
                  count-view_of (key_hash env) x decide rs.validated_votes nodes
                    (Distinct-map (key_hash env) nodes only distinct) sound.distinct
                    (keys-open env h r nodes rs.validated_votes sound.filed all))
                ∙ count-open x nodes (values rs.validated_votes) all)

  -- The decision of a reached node is that of its view.
  reached_round :
      (id : PublicKey) (core : Core) (h : BlockHash) (r : Round)
      → IsReached env id core
      → IsOpen nodes (round_of core h r)
      → (tally_decision (round_of core h r).tally ≡ decision_of (view (round_of core h r)) nodes)
        × Lacks decide (view (round_of core h r)) nodes
  reached_round id core h r reached open_ =
      let start = spawn env id reached.peers reached.byzantine reached.rng reached.seed in
      let inv : Inv core =
        run-Inv start reached.events
          (spawn-Inv env id reached.peers reached.byzantine reached.rng reached.seed) reached.ran in
      let every =
        spawn-run-Every (any_laws env id) reached.peers reached.byzantine reached.rng reached.seed
          reached.events reached.ran in
      let sound : IsSound env h r (round_of core h r) =
        subst (λ e. IsSound e h r (round_of core h r)) every.0 (inv.sound h r) in
      let counts =
        run-CountsVotes env id reached.peers reached.byzantine reached.rng reached.seed
          reached.events core h r (only id) reached.ran in
      (
        ap tally_decision (open-tally h r (round_of core h r) sound counts open_),
        open-Lacks h r (round_of core h r) sound open_,
      )

  -- Two nodes of one network, whatever each of them received, on a round that both hold votes of: if
  -- all the votes they hold are of the network's four nodes and decide nothing yet, no two keys
  -- have one digest, and the votes that the two hold differ for one node at most, then the two
  -- tallies do not lead one node to decide a value and the other to decide another.
  pub run-decisions_agree :
      (id id' : PublicKey) (core core' : Core) (h : BlockHash) (r : Round)
      → IsReached env id core
      → IsReached env id' core'
      → IsOpen nodes (round_of core h r)
      → IsOpen nodes (round_of core' h r)
      → equivocators (view (round_of core h r)) (view (round_of core' h r)) nodes
        ≤ number_of_byzantine_nodes
      → (tally_decision (round_of core h r).tally).vote_type ≡ decide
      → (tally_decision (round_of core' h r).tally).vote_type ≡ decide
      → (tally_decision (round_of core h r).tally).value
        ≡ (tally_decision (round_of core' h r).tally).value
  run-decisions_agree id id' core core' h r ra rb oa ob few da db =
      let (ea, la) = reached_round id core h r ra oa in
      let (eb, lb) = reached_round id' core' h r rb ob in
      ap (λ d. d.value) ea
      ∙ decisions_agree (view (round_of core h r)) (view (round_of core' h r)) nodes size few la lb
          (ap (λ d. d.vote_type) (sym ea) ∙ da) (ap (λ d. d.vote_type) (sym eb) ∙ db)
      ∙ ap (λ d. d.value) (sym eb)
