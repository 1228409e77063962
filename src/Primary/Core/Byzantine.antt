-- ===== src/Primary/Core/Byzantine.antt =====
-- primary/src/core.rs: `byzantine_votes`, which nothing calls. `none` is a panic, or a loop that has not
-- ended on the fuel given.
use nero_consensus.Prelude.{
  ℕ, zero, suc, ◌≡◌, refl, Option, none, some, List, [], ◌∷◌, map, ltb, ◌==◌, nat_eq, if◌then◌else◌,
  length, get_elem?, ◌>>=◌, Option-cases, Bool-cases, inl, inr, beq_self,
}
use nero_consensus.Prelude.Map.{get}
use nero_consensus.Prelude.Sets.{contains, include, collect}
use nero_consensus.Random.{Rng, gen_range}
use nero_consensus.Primary.General.{quorum, number_of_total_nodes}
use nero_consensus.Primary.Vote.{BlockHash, Round, PrimaryVote, vote_eq}
use nero_consensus.Primary.Election.{from_votes}
use nero_consensus.Primary.Core.State.{Core, vote_hash}
use nero_consensus.Primary.Core.Validate.{make_decision}
use nero_consensus.Primary.Core.Handlers.{next}

-- The random indices.
unfoldable pub draws : ℕ → Rng → List ℕ × Rng
unfolding gen_range
draws zero rng = ([], rng)
draws (suc n) rng =
    let (random, rng1) = gen_range number_of_total_nodes rng in
    let (randoms, rng2) = draws n rng1 in (random ∷ randoms, rng2)

-- `while proof.len() < QUORUM`: the vote that it inserts is the same each time.
unfoldable pub fill_proof : ℕ → List PrimaryVote → ℕ → List PrimaryVote → Option (List PrimaryVote)
unfolding include
fill_proof zero votes random proof = if ltb (length proof) quorum then none else some proof
fill_proof (suc fuel) votes random proof =
    let step : PrimaryVote → Option (List PrimaryVote) =
      λ vote. fill_proof fuel votes random (include vote proof) in
    if ltb (length proof) quorum then get_elem? votes random >>= step else some proof

-- The body of the loop over the votes to make.
unfoldable pub byzantine_vote :
    ℕ → Core → Round → BlockHash → List PrimaryVote → ℕ → Option (PrimaryVote × Core)
unfolding fill_proof
byzantine_vote fuel core next_round hash votes random = do
  proof ← fill_proof fuel votes random []
  let (decision, core1) = make_decision core (from_votes proof)
  some (
    record {
      signer = core1.id;
      round = next_round;
      value = decision.value;
      vote_type = decision.vote_type;
      proof = some (collect (map (vote_hash core) proof));
      election_hash = hash;
    },
    core1,
  )

unfoldable pub make_votes :
    ℕ → Core → Round → BlockHash → List PrimaryVote → List ℕ → Option (List PrimaryVote × Core)
unfolding byzantine_vote
make_votes fuel core next_round hash votes [] = some ([], core)
make_votes fuel core next_round hash votes (random ∷ randoms) = do
  (vote, core1) ← byzantine_vote fuel core next_round hash votes random
  (rest, core2) ← make_votes fuel core1 next_round hash votes randoms
  some (vote ∷ rest, core2)

unfoldable pub byzantine_votes :
    ℕ → Core → Round → BlockHash → ℕ → List PrimaryVote → Option (List PrimaryVote × Core)
unfolding draws make_votes
byzantine_votes fuel core round hash number_of_votes votes = do
  election ← get hash core.elections
  round_state ← get round election.state
  if length votes == quorum
      then (let (randoms, rng1) = draws number_of_votes core.rng in
          make_votes fuel (record core { rng = rng1 }) (next round) hash votes randoms)
      else none

-- A set with the same vote once more.
fill_proof-one :
    (fuel : ℕ) (votes : List PrimaryVote) (random : ℕ) (vote : PrimaryVote)
    → get_elem? votes random ≡ some vote
    → fill_proof fuel votes random (vote ∷ []) ≡ none
unfolding fill_proof include contains
fill_proof-one zero votes random vote h = refl
fill_proof-one (suc fuel) votes random vote h =
    rw (h, beq_self vote) (fill_proof-one fuel votes random vote h)

fill_proof-none :
    (fuel : ℕ) (votes : List PrimaryVote) (random : ℕ) → fill_proof fuel votes random [] ≡ none
unfolding fill_proof include contains
fill_proof-none zero votes random = refl
fill_proof-none (suc fuel) votes random = elim (Option-cases (get_elem? votes random)) [
  | inl outside ↦ rw outside
  | inr (vote, inside) ↦ rw inside (fill_proof-one fuel votes random vote inside)
]

make_votes-none :
    (fuel : ℕ) (core : Core) (next_round : Round) (hash : BlockHash) (votes : List PrimaryVote)
    (random : ℕ) (randoms : List ℕ)
    → make_votes fuel core next_round hash votes (random ∷ randoms) ≡ none
unfolding make_votes byzantine_vote
make_votes-none fuel core next_round hash votes random randoms =
    rw (fill_proof-none fuel votes random)

-- Asked for one vote or more, the function returns nothing, whatever the state and however many turns its
-- inner loop is given: it panics, or the loop that adds one and the same vote to a set until there is a
-- quorum in it goes on.
pub byzantine_votes-none :
    (fuel : ℕ) (core : Core) (round : Round) (hash : BlockHash) (n : ℕ) (votes : List PrimaryVote)
    → byzantine_votes fuel core round hash (suc n) votes ≡ none
unfolding byzantine_votes draws
byzantine_votes-none fuel core round hash n votes = elim (Option-cases (get hash core.elections)) [
  | inl unknown ↦ rw unknown
  | inr (election, known) ↦ rw known (elim (Option-cases (get round election.state)) [
    | inl absent ↦ rw absent
    | inr (rs, there) ↦ rw there (elim (Bool-cases (length votes == quorum)) [
      | inl full ↦ rw full (make_votes-none fuel _ (next round) hash votes _ _)
      | inr short ↦ rw short
    ])
  ])
]
