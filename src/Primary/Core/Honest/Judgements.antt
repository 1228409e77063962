-- ===== src/Primary/Core/Honest/Judgements.antt =====
-- primary/src/core.rs, `validate_vote`: a vote that an honest node judges valid follows from votes that it has.
use nero_consensus.Primary.Vote
use nero_consensus.Primary.Core.Validate.{proof_tally}
use nero_consensus.Prelude.Sets.{Distinct}
use nero_consensus.Prelude.{subst, length-map, ◌+◌}
use nero_consensus.Primary.Election.{from_votes}
use nero_consensus.Primary.Vote.{valid, invalid}
use nero_consensus.Primary.Core.Handlers.{load_election}
use nero_consensus.Primary.Core.Honest.{Judged}
use nero_consensus.Crypto.{PublicKey}
use nero_consensus.Primary.Core.State.{Env}
use nero_consensus.Primary.Core.Rounds.{IsSound, Filed}
use nero_consensus.Primary.Vote.{type_eq, value_eq}
use nero_consensus.Prelude.{if◌then◌else◌, ◌&&◌}
use nero_consensus.Primary.Core.Honest.Progress.{make_decision_of_honest}
use nero_consensus.Primary.Core.Validate.{judge, tally_decision}
use mathlib.Core.List.{append-nil, append_assoc}
use mathlib.Core.Option.{some-injective}
use nero_consensus.Prelude.Sets.{contains, include}
use nero_consensus.Primary.Vote.{vote_eq}
use nero_consensus.Prelude.{eq_of_beq, Bool-cases, ◌==◌}
use nero_consensus.Prelude.Map.{All-get, keys, values}
use nero_consensus.Prelude.{◌++◌, ◌∙◌, sym, ap, All-append, All-map, false}
use nero_consensus.Prelude.{
  ◌≤◌, ◌<◌, ◌≡◌, refl, inl, inr, false, some, List, [], ◌∷◌, arith, ◌==◌, nat_eq, Option-cases,
  length, All, ◌-◌,
}
use nero_consensus.Prelude.Map.{Map, get}
use nero_consensus.Prelude.Sets.{IsSorted, Above}
use nero_consensus.Primary.Vote.{VoteHash, PrimaryVote, valid}
use nero_consensus.Primary.Core.State.{Core}
use nero_consensus.Primary.Core.Validate.{proof_votes, validate_proof, validate_vote, find_round}
use nero_consensus.Primary.Core.Loads.{round_of, round_of-find}
use nero_consensus.Primary.Core.Invariant.{IsProper}

-- The votes gathered so far have lower hashes than those to come.
abbrev Lower : (PrimaryVote → VoteHash) → List PrimaryVote → List VoteHash → Type 0
Lower d votes [] = Unit
Lower d votes (k ∷ ks) = All (λ u. d u < k) votes

Lower-new :
    (d : PrimaryVote → VoteHash) (votes : List PrimaryVote) (k : VoteHash) (v : PrimaryVote)
    → All (λ u. d u < k) votes
    → k ≡ d v
    → contains v votes ≡ false
unfolding contains
Lower-new d [] k v lower this = refl
Lower-new d (u ∷ votes) k v lower this = elim (Bool-cases (u == v)) [
  | inl same ↦ absurd (omega (arith, lower.0, this, ap d (eq_of_beq u v same)))
  | inr other ↦ rw other (Lower-new d votes k v lower.1 this)
]

IsSorted-rest : (k : VoteHash) (ks : List VoteHash) → IsSorted (k ∷ ks) → IsSorted ks
IsSorted-rest k [] sorted = tt
IsSorted-rest k (j ∷ ks) sorted = sorted.1

Lower-next :
    (d : PrimaryVote → VoteHash) (votes : List PrimaryVote) (k : VoteHash) (v : PrimaryVote)
    (ks : List VoteHash)
    → IsSorted (k ∷ ks)
    → All (λ u. d u < k) votes
    → k ≡ d v
    → Lower d (votes ++ v ∷ []) ks
Lower-next d votes k v [] sorted lower this = tt
Lower-next d votes k v (j ∷ ks) sorted lower this =
    All-append (λ u. d u < j) votes (v ∷ [])
      (All-map _ _ (λ u less. omega (arith, less, sorted.0)) votes lower)
      (omega (arith, this, sorted.0), tt)

-- The first loop of `validate_vote` gathers the votes of the hashes, each once.
gathered :
    (d : PrimaryVote → VoteHash) (m : Map VoteHash PrimaryVote) (hashes : List VoteHash)
    (votes : List PrimaryVote) {found : List PrimaryVote}
    → All (λ x. x.0 ≡ d x.1) m
    → IsSorted hashes
    → Lower d votes hashes
    → proof_votes m hashes votes ≡ some found
    → (seen : Map VoteHash PrimaryVote) × (keys seen ≡ hashes)
      × All (λ x. get x.0 m ≡ some x.1) seen
      × (found ≡ votes ++ values seen)
unfolding proof_votes include
gathered d m [] votes filed sorted lower eq =
    ([], refl, tt, sym (some-injective _ _ eq) ∙ sym (append-nil votes))
gathered d m (k ∷ ks) votes {found} filed sorted lower eq = elim (Option-cases (get k m)) [
  | inl absent ↦ absurd (ground arith)
  | inr (v, here) ↦
      let this = All-get (λ x. x.0 ≡ d x.1) k m {v = v} filed here in
      let new = Lower-new d votes k v lower this in
      let rest : proof_votes m ks (votes ++ v ∷ []) ≡ some found =
        rw (here, proof_votes, new) at eq in
      let (seen, listed, held, all) =
        gathered d m ks (votes ++ v ∷ []) {found = found} filed (IsSorted-rest k ks sorted)
          (Lower-next d votes k v ks sorted lower this) rest in
      (
        (k, v) ∷ seen,
        ap (λ l. k ∷ l) listed,
        (here, held),
        all ∙ append_assoc votes (v ∷ []) (values seen),
      )
]

judge_valid :
    (core : Core) (v : PrimaryVote) (votes : List PrimaryVote)
    → core.byzantine ≡ false
    → (judge core v votes).0 ≡ valid
    → (v.value ≡ (tally_decision (from_votes votes)).value)
      × (v.vote_type ≡ (tally_decision (from_votes votes)).vote_type)
unfolding judge
judge_valid core v votes honest good =
    let same = make_decision_of_honest core (from_votes votes) honest in
    let d = tally_decision (from_votes votes) in
    let test : (if d.vote_type == v.vote_type && d.value == v.value then valid else invalid)
        ≡ valid =
      rw same at good in
    elim (Bool-cases (d.vote_type == v.vote_type && d.value == v.value)) [
      | inl fits ↦ (
        sym (eq_of_beq d.value v.value (ground arith)),
        sym (eq_of_beq d.vote_type v.vote_type (ground arith)),
      )
      | inr apart ↦ absurd (ground arith)
    ]

Lower-none : (d : PrimaryVote → VoteHash) (hashes : List VoteHash) → Lower d [] hashes
Lower-none d [] = tt
Lower-none d (k ∷ ks) = tt

Above-out : (lo k : VoteHash) (ks : List VoteHash) → k ≤ lo → Above lo ks → contains k ks ≡ false
unfolding contains
Above-out lo k [] less above = refl
Above-out lo k (j ∷ ks) less above =
    ground (arith, above.0, Above-out j k ks (omega (arith, less, above.0)) above.1)

Above-Distinct : (lo : VoteHash) (ks : List VoteHash) → Above lo ks → Distinct ks
Above-Distinct lo [] above = tt
Above-Distinct lo (k ∷ ks) above =
    (Above-out k k ks (omega arith) above.1, Above-Distinct k ks above.1)

IsSorted-Distinct : (ks : List VoteHash) → IsSorted ks → Distinct ks
IsSorted-Distinct [] sorted = tt
IsSorted-Distinct (k ∷ ks) sorted =
    (Above-out k k ks (omega arith) sorted, Above-Distinct k ks sorted)

later_pos : (r : VoteHash) → (r == 0) ≡ false → r ≡ r - 1 + 1
later_pos r later = ground arith

module _ (env : Env) (id : PublicKey) (Heard : PrimaryVote → Type 0) (core : Core) (v : PrimaryVote)
    {core2 : Core} (honest : core.byzantine ≡ false) (proper : IsProper v)
    (sound : IsSound env v.election_hash
      (v.round - 1)
      (round_of core v.election_hash (v.round - 1))) where
  -- A vote that an honest node judges valid is what the tally of the votes it names leads to.
  pub valid_Judged :
      validate_vote core v ≡ some (valid, core2)
      → Judged env id Heard v.election_hash (load_election core v.election_hash) v
  unfolding validate_vote validate_proof
  valid_Judged eq = elim (Bool-cases (v.round == 0)) [
    | inl first ↦ inl (eq_of_beq v.round 0 first, (ground arith))
    | inr later ↦ elim (Option-cases (find_round core v.election_hash (v.round - 1))) [
      | inl unknown ↦ absurd (ground arith)
      | inr (rs, found) ↦ elim proper [
        | inl (start, kind, none_yet) ↦ absurd (ground (arith, start))
        | inr (hashes, proof, enough, sorted) ↦
            elim (Option-cases (proof_votes rs.validated_votes hashes [])) [
              | inl missing ↦ absurd (ground arith)
              | inr (votes, all) ↦ elim (Option-cases (proof_tally rs.validated_votes hashes [])) [
                | inl panics ↦ absurd (ground arith)
                | inr (told, tallied) ↦
                    let same : round_of core v.election_hash (v.round - 1) ≡ rs =
                      round_of-find core v.election_hash (v.round - 1) {rs = rs} found in
                    let good : (judge core v votes).0 ≡ valid = ground arith in
                    let (value, kind) = judge_valid core v votes honest good in
                    let (seen, listed, held, gained) =
                      gathered (Vote.digest env.sha512) rs.validated_votes hashes [] {found = votes}
                        (All-map _ _ (λ x f. f.0) rs.validated_votes
                          (subst
                            (λ s. All (Filed env v.election_hash (v.round - 1)) s.validated_votes)
                            same sound.filed))
                        sorted (Lower-none (Vote.digest env.sha512) hashes) all in
                    inr (record {
                      previous = v.round - 1;
                      follows = later_pos v.round later;
                      seen = seen;
                      distinct = subst Distinct (sym listed) (IsSorted-Distinct hashes sorted);
                      held =
                          subst (λ s. All (λ x. get x.0 s.validated_votes ≡ some x.1) seen)
                            (sym same) held;
                      enough = omega (arith, enough, length-map (λ x. x.0) seen, ap length listed);
                      value = value ∙ ap (λ l. (tally_decision (from_votes l)).value) gained;
                      vote_type = kind ∙ ap (λ l. (tally_decision (from_votes l)).vote_type) gained;
                    })
              ]
            ]
      ]
    ]
  ]
