-- ===== src/Primary/Core/Honest/Arrivals.antt =====
-- primary/src/core.rs, `handle_vote`: a vote of another node arrives.
use nero_consensus.Primary.Core.Honest.Admissions.{
  IsForeign, IsDue, due, rs1, rs2, e2, admitted-Turn,
}
use nero_consensus.Primary.Core.Honest.Judgements.{valid_Judged}
use nero_consensus.Primary.Core.Honest.{Judged}
use nero_consensus.Prelude.{
  ◌≡◌, ◌-◌, refl, ◌⊎◌, ◌∙◌, inl, inr, true, false, some, arith, nat_eq, Bool-cases, Option-cases,
  subst, sym, ap, is_some, >>=-eq-some, ◌>>=◌,
}
use mathlib.Core.Option.{some-injective}
use nero_consensus.Prelude.Map.{contains_key, All-get}
use nero_consensus.Prelude.Sets.{contains}
use nero_consensus.Crypto.{PublicKey}
use nero_consensus.Primary.Vote.{
  VoteHash, BlockHash, Round, PrimaryVote, ValidationStatus, valid, invalid, pending, vote_eq,
  digest,
}
use nero_consensus.Primary.Vote
use nero_consensus.Primary.Election.{Election}
use nero_consensus.Primary.Core.State.{Core, Env, vote_hash}
use nero_consensus.Primary.Core.Validate.{validate_vote}
use nero_consensus.Primary.Core.Handlers.{
  load_election, load_round, store_election, answer, try_advance, dispatch_vote, note_vote,
  handle_vote,
}
use nero_consensus.Primary.Core.Loads.{round_of}
use nero_consensus.Primary.Core.Invariant.{Inv, load-Inv, set_rng-Inv}
use nero_consensus.Primary.Core.Runs.{validate_vote_core, dispatch_valid, note_vote-Inv}
use nero_consensus.Primary.Core.Rounds.{Filed}
use nero_consensus.Primary.Core.Tallied.{IsAlone, key_hash}
use nero_consensus.Primary.Core.Honest.{SentIn, Present, Advanced}
use nero_consensus.Primary.Core.Honest.Puts.{written_here}
use nero_consensus.Primary.Core.Honest.Nodes.{
  Hand, Honest, load-Hand, store-Honest, set_rng-Hand, set_rng-Honest,
}
use nero_consensus.Primary.Core.Honest.Advances.{try_advance-Honest}

module _ (env : Env) (id : PublicKey) (Heard : PrimaryVote → Type 0) (alone : IsAlone env id)
    (foreign : (v : PrimaryVote) → Heard v → IsForeign id v) where
  dispatch_vote-Honest :
      (status : ValidationStatus) (core : Core) (e : Election) (v : PrimaryVote) {core' : Core}
      → Inv (store_election core v.election_hash e)
      → contains_key (vote_hash core v) (load_round e v.election_hash v.round).validated_votes
        ≡ false
      → Heard v
      → (status ≡ valid → IsDue e v × Judged env id Heard v.election_hash e v)
      → Present v.election_hash e
      → Advanced v.election_hash e
      → Honest env id Heard core
      → Hand env id Heard v.election_hash core e
      → dispatch_vote status core e (load_round e v.election_hash v.round) v ≡ some core'
      → Honest env id Heard core'
  unfolding dispatch_vote
  dispatch_vote-Honest valid core e v i new heard cause present advanced all hand eq =
      let core2 = (answer core (rs1 env id Heard alone foreign core e v new heard hand) v).1 in
      let here : load_round (e2 env id Heard alone foreign core e v new heard hand) v.election_hash
            v.round
          ≡ rs2 env id Heard alone foreign core e v new heard hand =
        written_here env id Heard v.election_hash e e.is_decided v.round
          (rs2 env id Heard alone foreign core e v new heard hand) in
      subst (Honest env id Heard) (dispatch_valid core e v i eq) (
        subst
          (λ x.
            let (e3, core3) =
              try_advance core2 (e2 env id Heard alone foreign core e v new heard hand) x v in
            Honest env id Heard (store_election core3 v.election_hash e3))
          here
          (try_advance-Honest env id Heard alone core2
            (e2 env id Heard alone foreign core e v new heard hand) v
            (admitted-Turn env id Heard alone foreign core e v new heard hand (cause refl).0
              (cause refl).1 present advanced)))
  dispatch_vote-Honest invalid core e v i new heard cause present advanced all hand eq =
      subst (Honest env id Heard) (some-injective _ _ eq) all
  dispatch_vote-Honest pending core e v i new heard cause present advanced all hand eq =
      elim (Option-cases v.proof) [
        | inl absent ↦ absurd (ground arith)
        | inr (proof, here) ↦
            subst (Honest env id Heard) (some-injective _ _ (ground arith))
              (store-Honest env id Heard v.election_hash core e hand present advanced)
      ]

  note_vote-Honest :
      (core : Core) (v : PrimaryVote)
      → Honest env id Heard core
      → Honest env id Heard (note_vote core v)
  unfolding note_vote load_election
  note_vote-Honest core v all = elim (Bool-cases (contains v core.sent_votes)) [
    | inl seen ↦ rw seen all
    | inr new ↦ rw new all
  ]

  note_vote-log : (core : Core) (v : PrimaryVote) → (note_vote core v).log ≡ core.log
  unfolding note_vote
  note_vote-log core v = elim (Bool-cases (contains v core.sent_votes)) [
    | inl seen ↦ rw seen refl
    | inr new ↦ rw new refl
  ]

  validated-Honest :
      (core : Core) (v : PrimaryVote) {core' : Core}
      → Inv core
      → contains_key (vote_hash core v) (round_of core v.election_hash v.round).validated_votes
        ≡ false
      → Heard v
      → Honest env id Heard core
      → (do
        (status, core2) ← validate_vote core v
        dispatch_vote status core2
            (load_election core v.election_hash)
            (round_of core v.election_hash v.round)
            v)
        ≡ some core'
      → Honest env id Heard core'
  unfolding store_election
  validated-Honest core v {core'} i new heard all eq =
      let h = v.election_hash in
      let e = load_election core h in
      let ((status, core2), checked, rest) = >>=-eq-some (validate_vote core v) _ eq in
      let (rng, same) = validate_vote_core core v {x = (status, core2)} checked in
      let full = all.1 h in
      let (foreign_signer, proper, small) = foreign v heard in
      dispatch_vote-Honest status core2 e v {core' = core'}
        (subst (λ c. Inv (store_election c h e)) (sym same)
          (set_rng-Inv (store_election core h e) rng (load-Inv core h i)))
        (subst (λ c. contains_key (vote_hash c v) (load_round e h v.round).validated_votes ≡ false)
          (sym same) new)
        heard
        (λ good.
          let accepted = subst (λ s. validate_vote core v ≡ some (s, core2)) good checked in
          (
            due core v {core2 = core2} proper small full.advanced accepted,
            valid_Judged env id Heard core v {core2 = core2} all.0.2 proper
                (full.base.rounds (v.round - 1)).sound accepted,
          ))
        full.present full.advanced
        (subst (Honest env id Heard) (sym same) (set_rng-Honest env id Heard core rng all))
        (subst (λ c. Hand env id Heard h c e) (sym same)
          (set_rng-Hand env id Heard h core e rng (load-Hand env id Heard core h all)))
        rest

  -- A vote of the node itself is in its round already.
  echo_held :
      (core : Core) (v : PrimaryVote)
      → Honest env id Heard core
      → SentIn v core.log
      → contains_key (vote_hash core v) (round_of core v.election_hash v.round).validated_votes
        ≡ true
  unfolding digest
  echo_held core v all out =
      let h = v.election_hash in
      let base = (all.1 h).base in
      let votes = (round_of core h v.round).validated_votes in
      let mine = base.sent v out refl in
      let filed =
        All-get (Filed env h v.round) (key_hash env id) votes {v = v}
          (base.rounds v.round).sound.filed mine in
      let hashed : vote_hash core v ≡ key_hash env id =
        ap (λ n. Vote.digest n.sha512 v) all.0.0 ∙ sym filed.0 in
      subst (λ k. contains_key k votes ≡ true) (sym hashed) (ap is_some mine)

  -- A vote of another node, or of this one, which it sent before.
  pub handle_vote-Honest :
      (core : Core) (v : PrimaryVote) {core' : Core}
      → Inv core
      → Heard v ⊎ SentIn v core.log
      → Honest env id Heard core
      → handle_vote core v ≡ some core'
      → Honest env id Heard core'
  unfolding handle_vote
  handle_vote-Honest core v {core'} i heard all eq =
      let core1 = note_vote core v in
      let noted = note_vote-Honest core v all in
      let h = v.election_hash in
      elim (Bool-cases
        (contains_key (vote_hash core1 v) (round_of core1 h v.round).validated_votes)) [
          | inl old ↦ subst (Honest env id Heard) (some-injective _ _ (rw old at eq)) (
              store-Honest env id Heard h core1 (load_election core1 h)
                (load-Hand env id Heard core1 h noted) (noted.1 h).present (noted.1 h).advanced)
          | inr new ↦ elim heard [
            | inl foreign_vote ↦
                validated-Honest core1 v (note_vote-Inv core v i) new foreign_vote noted
                  (rw new at eq)
            | inr out ↦
                absurd
                  (ground (arith, new, echo_held core1 v noted (rw (note_vote-log core v) out)))
          ]
        ]
