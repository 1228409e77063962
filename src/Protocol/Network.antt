-- ===== src/Protocol/Network.antt =====
-- A network of nodes, byzantine or not: each runs on the transactions it is sent, on votes that the others sent
-- and on its own, which come back to it.
use nero_consensus.Primary.Core.Honest.Hands.{vote_in}
use nero_consensus.Primary.Core.Invariant.{OnePerRound, same_round}
use nero_consensus.Prelude.{
  Option-cases, Bool-cases, eq_of_beq, beq_self, ◌==◌, nat_eq, ap, sym, ◌∙◌, Option, none, refl,
  ◌≢◌, Bool, true, false, arith, inl, inr,
}
use nero_consensus.Prelude.{
  ◌+◌, ◌^◌, ◌<◌, ◌≡◌, inl, inr, true, false, some, List, [], ◌∷◌, sym, subst, arith, ◌==◌, nat_eq,
  All,
}
use nero_consensus.Prelude.Sets.{contains}
use nero_consensus.Random.{Rng}
use nero_consensus.Crypto.{PublicKey}
use nero_consensus.Network.Address.{SocketAddr}
use nero_consensus.Primary.Vote.{PrimaryVote}
use nero_consensus.Primary.Message.{send_vote}
use nero_consensus.Primary.Core.State.{Core, Env, Sent, spawn}
use nero_consensus.Primary.Core.Handlers.{Event, run}
use nero_consensus.Primary.Core.Invariant.{IsCast}
use nero_consensus.Primary.Core.Tallied.{key_hash}
use nero_consensus.Primary.Core.Honest.{SentIn}
use nero_consensus.Primary.Core.Honest.Runs.{Receives}

-- No two keys have one digest.
abbrev pub IsInjective : Env → Type 0
IsInjective env = (n m : PublicKey) → key_hash env m ≡ key_hash env n → m ≡ n

-- What the node receives of the others: a vote that another node of the network has sent, of a round that
-- is not the last that a `u32` can name.
abbrev pub IsFromPeer : List PublicKey → (PublicKey → Core) → PublicKey → PrimaryVote → Type 0
IsFromPeer nodes cores n v =
    (contains v.signer nodes ≡ true)
    × ((v.signer == n) ≡ false)
    × SentIn v (cores v.signer).log
    × (v.round + 1 < 2 ^ 32)

-- A node of the network, byzantine or not, after a run.
pub record IsMember (env : Env) (nodes : List PublicKey) (cores : PublicKey → Core)
    (byzantine : PublicKey → Bool) (n : PublicKey) : Type 0 where
  pub peers : List (PublicKey × SocketAddr)
  pub rng : Rng
  pub seed : Rng
  pub events : List Event
  pub heard : Receives (IsFromPeer nodes cores n) (spawn env n peers (byzantine n) rng seed) events
  pub ran : run (spawn env n peers (byzantine n) rng seed) events ≡ some (cores n)

-- A vote that went out was cast.
pub sent-IsCast :
    (core : Core) (v : PrimaryVote) (log : List Sent)
    → All (λ s. IsCast core s.message) log
    → SentIn v log
    → IsCast core (send_vote v)
sent-IsCast core v [] all out = absurd out
sent-IsCast core v (s ∷ log) all (inl this) = subst (IsCast core) this all.0
sent-IsCast core v (s ∷ log) all (inr later) = sent-IsCast core v log all.1 later

same_round_sym :
    (v w : PrimaryVote)
    → same_round (send_vote v) (send_vote w) ≡ true
    → same_round (send_vote w) (send_vote v) ≡ true
same_round_sym v w same = ground (arith, same)

other_round :
    (v w : PrimaryVote) (s : Sent) (log : List Sent)
    → s.message ≡ send_vote v
    → All (λ t. same_round s.message t.message ≡ false) log
    → same_round (send_vote v) (send_vote w) ≡ true
    → SentIn w log
    → ⊥
other_round v w s [] this apart same out = absurd out
other_round v w s (t ∷ log) this apart same (inl that) = absurd (
    ground (
      arith,
      same,
      subst (λ m. same_round m (send_vote w) ≡ false) this
          (subst (λ m. same_round s.message m ≡ false) that apart.0),
    ))
other_round v w s (t ∷ log) this apart same (inr later) =
    other_round v w s log this apart.1 same later

-- A node sends one vote in a round.
pub sent_once :
    (v w : PrimaryVote) (log : List Sent)
    → OnePerRound log
    → same_round (send_vote v) (send_vote w) ≡ true
    → SentIn v log
    → SentIn w log
    → v ≡ w
sent_once v w [] one same out too = absurd out
sent_once v w (s ∷ log) one same (inl this) (inl that) = ap (vote_in v) (sym this ∙ that)
sent_once v w (s ∷ log) one same (inl this) (inr later) =
    absurd (other_round v w s log this one.0 same later)
sent_once v w (s ∷ log) one same (inr later) (inl this) =
    absurd (other_round w v s log this one.0 (same_round_sym v w same) later)
sent_once v w (s ∷ log) one same (inr before) (inr later) =
    sent_once v w log one.1 same before later

-- The first node for which there is a vote.
unfoldable pub first_of : (PublicKey → Option PrimaryVote) → List PublicKey → Option PrimaryVote
first_of f [] = none
first_of f (m ∷ nodes) = let rest = first_of f nodes in elim (f m) [ none ↦ rest | some v ↦ some v ]

pub first_of-some :
    (f : PublicKey → Option PrimaryVote) (nodes : List PublicKey) {w : PrimaryVote}
    → first_of f nodes ≡ some w
    → (m : PublicKey) × (contains m nodes ≡ true) × (f m ≡ some w)
unfolding first_of contains
first_of-some f [] found = absurd (ground (arith, found))
first_of-some f (m ∷ nodes) {w} found = elim (Option-cases (f m)) [
  | inl absent ↦
      let (k, there, here) = first_of-some f nodes {w = w} (rw (absent, first_of) at found) in
      (k, (ground (arith, there)), here)
  | inr (v, here) ↦ (m, rw (beq_self m) refl, here ∙ rw (here, first_of) at found)
]

pub first_of-none :
    (f : PublicKey → Option PrimaryVote) (nodes : List PublicKey) (m : PublicKey) {w : PrimaryVote}
    → contains m nodes ≡ true
    → f m ≡ some w
    → first_of f nodes ≢ none
unfolding first_of contains
first_of-none f [] m there here never = absurd (ground (arith, there))
first_of-none f (k ∷ nodes) m {w} there here never = elim (Option-cases (f k)) [
  | inl absent ↦ elim (Bool-cases (k == m)) [
    | inl same ↦ absurd (ground (arith, absent, here, ap f (eq_of_beq k m same)))
    | inr other ↦
        first_of-none f nodes m {w = w} (ground (arith, there, other)) here
          (rw (absent, first_of) at never)
  ]
  | inr (v, there_k) ↦ absurd (ground (arith, rw (there_k, first_of) at never))
]
