-- ===== src/Protocol/Members.antt =====
-- What the honest nodes of a network have accepted: each vote that one of them holds is the one vote that its
-- signer sent in the round.
use nero_consensus.Primary.Core.Honest.Runs.{Receives}
use nero_consensus.Prelude.{
  ◌≡◌, inl, inr, Bool, true, false, none, some, List, ◌∙◌, sym, ap, subst, arith, nat_eq,
  if◌then◌else◌, Bool-cases, Option-cases,
}
use nero_consensus.Prelude.Map.{get, All-get}
use nero_consensus.Prelude.Sets.{contains}
use nero_consensus.Crypto.{PublicKey}
use nero_consensus.Primary.Vote.{BlockHash, Round, PrimaryVote, digest}
use nero_consensus.Primary.Message.{send_vote}
use nero_consensus.Primary.Core.State.{Core, Env, spawn}
use nero_consensus.Primary.Core.Handlers.{run, load_election}
use nero_consensus.Primary.Core.Loads.{round_of}
use nero_consensus.Primary.Core.Rounds.{Filed}
use nero_consensus.Primary.Core.Invariant.{Inv, same_round}
use nero_consensus.Primary.Core.Runs.{spawn-Inv, run-Inv}
use nero_consensus.Primary.Core.Tallied.{key_hash}
use nero_consensus.Primary.Core.Agreement.{View}
use nero_consensus.Primary.Core.Honest.{SentIn, Known}
use nero_consensus.Primary.Core.Honest.Nodes.{Honest, Full}
use nero_consensus.Primary.Core.Honest.Admissions.{IsForeign}
use nero_consensus.Primary.Core.Honest.Runs.{spawn-run-Honest}
use nero_consensus.Protocol.Network.{
  IsInjective, IsFromPeer, IsMember, sent-IsCast, sent_once, first_of, first_of-some, first_of-none,
}

module _ (env : Env) (nodes : List PublicKey) (cores : PublicKey → Core)
    (byzantine : PublicKey → Bool)
    (members : (n : PublicKey) → contains n nodes ≡ true → IsMember env nodes cores byzantine n)
    (only : IsInjective env) where
  member-Inv : (n : PublicKey) → contains n nodes ≡ true → Inv (cores n)
  member-Inv n here =
      let m = members n here in
      run-Inv (spawn env n m.peers (byzantine n) m.rng m.seed) m.events
        (spawn-Inv env n m.peers (byzantine n) m.rng m.seed) m.ran

  member-IsForeign : (n : PublicKey) (v : PrimaryVote) → IsFromPeer nodes cores n v → IsForeign n v
  member-IsForeign n v (there, foreign, out, small) =
      let cast =
        sent-IsCast (cores v.signer) v (cores v.signer).log (member-Inv v.signer there).cast out in
      (foreign, cast.2, omega arith)

  -- An honest node of the network.
  abbrev pub IsHonest : PublicKey → Type 0
  IsHonest n = (contains n nodes ≡ true) × (byzantine n ≡ false)

  pub member-Honest :
      (n : PublicKey) → IsHonest n → Honest env n (IsFromPeer nodes cores n) (cores n)
  member-Honest n (here, honest) =
      let m = members n here in
      spawn-run-Honest env n (IsFromPeer nodes cores n) (only n) (member-IsForeign n) m.peers m.rng
        m.seed m.events
        (subst
          (λ b. Receives (IsFromPeer nodes cores n) (spawn env n m.peers b m.rng m.seed) m.events)
          honest m.heard)
        (subst (λ b. run (spawn env n m.peers b m.rng m.seed) m.events ≡ some (cores n)) honest
          m.ran)

  module _ (h : BlockHash) where
    pub member-Full :
        (n : PublicKey)
        → IsHonest n
        → Full env n
            (IsFromPeer nodes cores n)
            h
            (cores n).log
            (load_election (cores n) h)
            (get h (cores n).decided)
    member-Full n honest = (member-Honest n honest).1 h

    -- The vote of a node that another holds.
    abbrev pub held_by : PublicKey → Round → View
    held_by m r n = get (key_hash env n) (round_of (cores m) h r).validated_votes

    -- The vote of a node that an honest node holds, if one does.
    abbrev pub accepted : Round → View
    accepted r n = first_of (λ m. if byzantine m then none else held_by m r n) nodes

    pub held-signer :
        (m : PublicKey)
        → IsHonest m
        → (r : Round) (n : PublicKey) (v : PrimaryVote) → held_by m r n ≡ some v
        → (v.signer ≡ n)
          × (v.round ≡ r)
          × (v.election_hash ≡ h)
          × Known env m (IsFromPeer nodes cores m) h (load_election (cores m) h) v
    unfolding digest
    held-signer m honest r n v held =
        let ok = (member-Full m honest).base.rounds r in
        let votes = (round_of (cores m) h r).validated_votes in
        let (hashed, in_round, for_h) =
          All-get (Filed env h r) (key_hash env n) votes {v = v} ok.sound.filed held in
        (
          only n v.signer (sym hashed),
          in_round,
          for_h,
          All-get (λ x. Known env m (IsFromPeer nodes cores m) h (load_election (cores m) h) x.1)
              (key_hash env n) votes {v = v} ok.known held,
        )

    -- Its signer is in the network and has sent it.
    pub held-SentIn :
        (m : PublicKey)
        → IsHonest m
        → (r : Round) (n : PublicKey) (v : PrimaryVote) → held_by m r n ≡ some v
        → (contains n nodes ≡ true) × SentIn v (cores n).log
    held-SentIn m honest r n v held =
        let (signed, in_round, for_h, known) = held-signer m honest r n v held in
        elim known [
          | inl ((there, foreign, out, small), judged) ↦ (
            subst (λ k. contains k nodes ≡ true) signed there,
            subst (λ k. SentIn v (cores k).log) signed out,
          )
          | inr mine ↦
              let (me, _, _, _) = held-signer m honest v.round m v mine in
              let same : m ≡ n = sym me ∙ signed in
              (
                subst (λ k. contains k nodes ≡ true) same honest.0,
                subst (λ k. SentIn v (cores k).log) same
                    ((member-Full m honest).base.out v.round v mine),
              )
        ]

    held_same :
        (m k : PublicKey)
        → IsHonest m
        → IsHonest k
        → (r : Round) (n : PublicKey) (v w : PrimaryVote) → held_by m r n ≡ some v
        → held_by k r n ≡ some w
        → v ≡ w
    held_same m k hm hk r n v w hv hw =
        let (there, out) = held-SentIn m hm r n v hv in
        let (_, too) = held-SentIn k hk r n w hw in
        let (sv, rv, ev, kv) = held-signer m hm r n v hv in
        let (sw, rw_, ew, kw) = held-signer k hk r n w hw in
        let same : same_round (send_vote v) (send_vote w) ≡ true =
          ground (arith, rv, rw_, ev, ew) in
        sent_once v w (cores n).log (member-Inv n there).single same out too

    pub accepted-held :
        (r : Round) (n : PublicKey) (w : PrimaryVote)
        → accepted r n ≡ some w
        → (m : PublicKey) × IsHonest m × (held_by m r n ≡ some w)
    accepted-held r n w found =
        let (m, there, here) =
          first_of-some (λ k. if byzantine k then none else held_by k r n) nodes {w = w} found in
        elim (Bool-cases (byzantine m)) [
          | inl faulty ↦ absurd (ground (arith, rw faulty at here))
          | inr honest ↦ (m, (there, honest), rw honest at here)
        ]

    pub held-accepted :
        (m : PublicKey)
        → IsHonest m
        → (r : Round) (n : PublicKey) (w : PrimaryVote) → held_by m r n ≡ some w
        → accepted r n ≡ some w
    held-accepted m honest r n w held = elim (Option-cases (accepted r n)) [
      | inl absent ↦ absurd (
          first_of-none (λ k. if byzantine k then none else held_by k r n) nodes m {w = w} honest.0
            (rw (honest.1) held) absent)
      | inr (v, found) ↦
          let (k, hk, here) = accepted-held r n v found in
          found ∙ ap some (held_same k m hk honest r n v w here held)
    ]
