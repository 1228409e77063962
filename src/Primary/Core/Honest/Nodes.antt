-- ===== src/Primary/Core/Honest/Nodes.antt =====
-- A node all of whose elections are in order, and one with an election in hand.
use nero_consensus.Primary.Core.Honest.{Judged}
use nero_consensus.Prelude.{
  ◌≡◌, refl, ◌⊎◌, ◌∙◌, inl, inr, Bool, true, false, Option, some, List, ◌∷◌, arith, ◌==◌, nat_eq,
  Bool-cases, eq_of_beq, beq_self, subst, sym, ap,
}
use nero_consensus.Prelude.Map.{Map, get}
use nero_consensus.Random.{Rng}
use nero_consensus.Crypto.{PublicKey}
use nero_consensus.Primary.Vote.{BlockHash, PrimaryVote, Value, decide}
use nero_consensus.Primary.Message.{send_vote}
use nero_consensus.Primary.Election.{Election}
use nero_consensus.Primary.Core.State.{Core, Env, Sent, vote_hash, broadcast_message}
use nero_consensus.Primary.Core.Handlers.{
  load_election, load_round, store_election, cast_vote, admit_vote,
}
use nero_consensus.Primary.Core.Loads.{load_election-store, put_round}
use nero_consensus.Prelude.Map.{contains_key}
use nero_consensus.Primary.Core.Tallied.{IsAlone}
use nero_consensus.Primary.Core.Honest.{Present, Advanced, Justified, Base}
use nero_consensus.Primary.Core.Honest.Puts.{written, written-Base}
use nero_consensus.Primary.Core.Honest.Hands.{vote_in, admit-Fits, cast-Fits}

module _ (env : Env) (id : PublicKey) (Heard : PrimaryVote → Type 0) where
  pub record Full (h : BlockHash) (log : List Sent) (e : Election) (recorded : Option Value)
      : Type 0 where
    pub base : Base env id Heard h log e recorded
    pub present : Present h e
    pub advanced : Advanced h e

  -- The node with this key, which is honest.
  abbrev pub IsNode : Core → Type 0
  IsNode core = (core.env ≡ env) × (core.id ≡ id) × (core.byzantine ≡ false)

  abbrev pub FullAt : Core → BlockHash → Type 0
  FullAt core j = Full j core.log (load_election core j) (get j core.decided)

  abbrev pub Honest : Core → Type 0
  Honest core = IsNode core × ((h : BlockHash) → FullAt core h)

  -- The election in hand is not written back yet.
  pub record Hand (h : BlockHash) (core : Core) (e : Election) : Type 0 where
    pub node : IsNode core
    pub others : (j : BlockHash) → (h == j) ≡ false → FullAt core j
    pub base : Base env id Heard h core.log e (get h core.decided)

  pub load-Hand : (core : Core) (h : BlockHash) → Honest core → Hand h core (load_election core h)
  load-Hand core h all = record { node = all.0; others = λ j other. all.1 j; base = (all.1 h).base }

  pub set_rng-Hand :
      (h : BlockHash) (core : Core) (e : Election) (rng : Rng)
      → Hand h core e
      → Hand h (record core { rng = rng }) e
  unfolding load_election
  set_rng-Hand h core e rng hand = record {
    node = hand.node;
    others = hand.others;
    base = hand.base;
  }

  pub set_rng-Honest : (core : Core) (rng : Rng) → Honest core → Honest (record core { rng = rng })
  unfolding load_election
  set_rng-Honest core rng all = all

  pub store-Honest :
      (h : BlockHash) (core : Core) (e : Election)
      → Hand h core e
      → Present h e
      → Advanced h e
      → Honest (store_election core h e)
  unfolding store_election
  store-Honest h core e hand present advanced = (
    hand.node,
    λ j. elim (Bool-cases (h == j)) [
      | inl same ↦
          rw (load_election-store core h j e, same)
            (subst (λ i. Full i core.log e (get i core.decided)) (eq_of_beq h j same)
              (record { base = hand.base; present = present; advanced = advanced }))
      | inr other ↦ rw (load_election-store core h j e, other) (hand.others j other)
    ],
  )

  -- A vote of another election changes nothing.
  send-Base :
      (j : BlockHash) (s : Sent) (v : PrimaryVote) (log : List Sent) (e : Election)
      (recorded : Option Value)
      → s.message ≡ send_vote v
      → (v.election_hash == j) ≡ false
      → Base env id Heard j log e recorded
      → Base env id Heard j (s ∷ log) e recorded
  send-Base j s v log e recorded what other base = record {
    rounds = base.rounds;
    justified = base.justified;
    closed = base.closed;
    decided = base.decided;
    sent = λ w out at_j. elim out [
      | inl now ↦
          let it : v ≡ w = ap (vote_in v) (sym what ∙ now) in
          absurd (
            ground (
              arith,
              beq_self j,
              subst (λ k. (k == j) ≡ false) (ap (λ u. u.election_hash) it ∙ at_j) other,
            ))
      | inr before ↦ base.sent w before at_j
    ];
    out = λ r w mine. inr (base.out r w mine);
    kept = base.kept;
  }

  module _ (alone : IsAlone env id) (core : Core) (e : Election) (v : PrimaryVote) where
    pub admit-Hand :
        (v.signer == id) ≡ false
        → contains_key (vote_hash core v) (load_round e v.election_hash v.round).validated_votes
          ≡ false
        → Heard v
        → Judged env id Heard v.election_hash e v
        → Hand v.election_hash core e
        → Hand v.election_hash core
            (put_round v.round (admit_vote core (load_round e v.election_hash v.round) v) e)
    admit-Hand foreign new heard judged hand = record {
      node = hand.node;
      others = hand.others;
      base =
          written-Base env id Heard v.election_hash e e.is_decided v.round
            (admit_vote core (load_round e v.election_hash v.round) v)
            (admit-Fits env id Heard alone v.election_hash core e v hand.node.0 refl hand.node.1
              foreign new heard judged hand.base)
            hand.base;
    }

    -- A vote is cast, and a decision recorded or not.
    pub cast-Hand :
        (b : Bool) (d : Map BlockHash Value)
        → v.signer ≡ id
        → (load_round e v.election_hash v.round).voted ≡ false
        → Justified env id Heard v.election_hash e v
        → (v.vote_type ≡ decide → (b ≡ true) × (get v.election_hash d ≡ some v.value))
        → (e.is_decided ≡ true
            → (b ≡ true) × (get v.election_hash d ≡ get v.election_hash core.decided))
        → (b ≡ true → (e.is_decided ≡ true) ⊎ ((x : Value) × (get v.election_hash d ≡ some x)))
        → ((j : BlockHash) → (v.election_hash == j) ≡ false → get j d ≡ get j core.decided)
        → ((x : Value)
            → get v.election_hash d ≡ some x
            → (get v.election_hash core.decided ≡ some x)
              ⊎ ((v.vote_type ≡ decide) × (v.value ≡ x)))
        → Hand v.election_hash core e
        → let (rs1, core1) = cast_vote core (load_round e v.election_hash v.round) v in
          Hand v.election_hash (record core1 { decided = d }) (written b v.round rs1 e)
    unfolding cast_vote broadcast_message load_election
    cast-Hand b d signed free just decides stays kept apart decided hand = record {
      node = hand.node;
      others = λ j other.
          let full = hand.others j other in
          record {
            base = subst (Base env id Heard j _ (load_election core j)) (sym (apart j other)) (
                send-Base j _ v core.log (load_election core j) (get j core.decided) refl other
                  full.base);
            present = full.present;
            advanced = full.advanced;
          };
      base =
          written-Base env id Heard v.election_hash e b v.round _
            (cast-Fits env id Heard alone v.election_hash core e v hand.node.0 refl b signed free
              just decides stays kept decided hand.base)
            hand.base;
    }
