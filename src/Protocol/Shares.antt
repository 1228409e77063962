-- ===== src/Protocol/Shares.antt =====
-- A node that knows some of the votes of a round, all but one or two, knows how many there are of each kind, but for one.
use nero_consensus.Prelude.{
  ◌+◌, ◌^◌, ◌≤◌, ◌<◌, ◌≡◌, ◌≢◌, refl, inl, inr, true, some, List, [], ◌∷◌, ◌∙◌, ap, arith, nat_eq,
  Option-cases, length, is_some, map, All,
}
use nero_consensus.Prelude.Map.{Map, get, keys, values}
use nero_consensus.Prelude.Sets.{contains, Distinct}
use nero_consensus.Crypto.{PublicKey}
use nero_consensus.Primary.General.{quorum, number_of_total_nodes}
use nero_consensus.Primary.Vote.{
  VoteHash, Value, VoteType, PrimaryVote, initial_vote, commit, decide, type_eq, value_eq,
}
use nero_consensus.Primary.Election.{Tally, new_tally, from_votes}
use nero_consensus.Primary.Election.Tallies.{count, tally_all}
use nero_consensus.Primary.Core.Agreement.{
  View, votes_of, voted_for, tested, seen, seen-tested, count-le,
}
use nero_consensus.Primary.Core.Views.{view_of, count-view_of, from_votes-view_of}
use nero_consensus.Protocol.Phases.{total, dropped, Knows}
use nero_consensus.Protocol.Counts.{
  tally_all-dropped, total-small, count-total, entry-small, decides_few,
}

-- The votes of one view are among those of the other.
abbrev pub IsPart : View → View → Type 0
IsPart a b = (n : PublicKey) (v : PrimaryVote) → a n ≡ some v → b n ≡ some v

length-votes_of :
    (a : View) (nodes : List PublicKey)
    → length (votes_of a nodes) ≡ tested (λ n. is_some (a n)) nodes
unfolding tested
length-votes_of a [] = refl
length-votes_of a (n ∷ nodes) = ground (arith, length-votes_of a nodes)

module _ (x : Value) (y : VoteType) (a b : View) (part : IsPart a b) where
  tested_le :
      (nodes : List PublicKey)
      → tested (λ n. voted_for x y (a n)) nodes ≤ tested (λ n. voted_for x y (b n)) nodes
  unfolding tested
  tested_le [] = omega arith
  tested_le (n ∷ nodes) = elim (Option-cases (a n)) [
    | inl absent ↦ rw absent (omega (arith, tested_le nodes))
    | inr (v, here) ↦ rw (here, part n v here) (omega (arith, tested_le nodes))
  ]

  tested_rest :
      (nodes : List PublicKey)
      → tested (λ n. voted_for x y (b n)) nodes + tested (λ n. is_some (a n)) nodes
        ≤ tested (λ n. voted_for x y (a n)) nodes + length nodes
  unfolding tested
  tested_rest [] = omega arith
  tested_rest (n ∷ nodes) = elim (Option-cases (a n)) [
    | inl absent ↦ rw absent (ground (arith, tested_rest nodes))
    | inr (v, here) ↦ rw (here, part n v here) (ground (arith, tested_rest nodes))
  ]

-- The tally of the votes of a view.
abbrev pub tally_of : View → List PublicKey → Tally
tally_of a nodes = from_votes (votes_of a nodes)

module _ (nodes : List PublicKey) (size : length nodes ≡ number_of_total_nodes) where
  pub length-votes_of_le : (a : View) → length (votes_of a nodes) ≤ number_of_total_nodes
  length-votes_of_le a = omega (arith, length-votes_of a nodes, count-le (λ n. is_some (a n)) nodes)

  pub total-tally_of : (a : View) → total (tally_of a nodes) ≡ length (votes_of a nodes)
  total-tally_of a = total-small (votes_of a nodes) (omega (arith, length-votes_of_le a))

  module _ (a b : View) (part : IsPart a b) where
    share :
        (x : Value) (y : VoteType)
        → (seen x y a nodes ≤ seen x y b nodes)
          × (seen x y b nodes + total (tally_of a nodes) ≤ seen x y a nodes + number_of_total_nodes)
    share x y =
        let sa = seen-tested x y a nodes size in
        let sb = seen-tested x y b nodes size in
        (
          omega (arith, sa, sb, tested_le x y a b part nodes),
          omega (
            arith,
            sa,
            sb,
            tested_rest x y a b part nodes,
            total-tally_of a,
            length-votes_of a nodes,
            size,
          ),
        )

    pub part_Knows :
        quorum ≤ length (votes_of a nodes) → Knows (tally_of a nodes) (tally_of b nodes)
    part_Knows enough = record {
      zero_votes = share Value.zero initial_vote;
      zero_commits = share Value.zero commit;
      zero_decides = share Value.zero decide;
      one_votes = share Value.one initial_vote;
      one_commits = share Value.one commit;
      one_decides = share Value.one decide;
      enough = omega (arith, total-tally_of a);
      all = omega (arith, total-tally_of b, length-votes_of_le b);
    }

  -- The votes of a round, held under the hashes of the nodes.
  module _ (hash : PublicKey → VoteHash) (m : Map VoteHash PrimaryVote)
      (apart : Distinct (map hash nodes)) (distinct : Distinct (keys m))
      (known : All (λ k. contains k (map hash nodes) ≡ true) (keys m)) where
    same_count :
        (x : Value) (y : VoteType)
        → count x y (values m) ≡ count x y (votes_of (view_of hash m) nodes)
    same_count x y = count-view_of hash x y m nodes apart distinct known

    pub length-view_of : length (values m) ≡ length (votes_of (view_of hash m) nodes)
    length-view_of = omega (
      arith,
      count-total (values m),
      count-total (votes_of (view_of hash m) nodes),
      same_count Value.zero initial_vote,
      same_count Value.zero commit,
      same_count Value.zero decide,
      same_count Value.one initial_vote,
      same_count Value.one commit,
      same_count Value.one decide,
    )

    pub tally-view_of : tally_all new_tally (values m) ≡ dropped (tally_of (view_of hash m) nodes)
    tally-view_of =
        tally_all-dropped (values m)
        ∙ ap dropped (from_votes-view_of hash m nodes apart distinct known)

    pub decides_few_of :
        (k : VoteHash) {v : PrimaryVote}
        → get k m ≡ some v
        → v.vote_type ≢ decide
        → (tally_of (view_of hash m) nodes).zero_decides
            + (tally_of (view_of hash m) nodes).one_decides
          < total (tally_of (view_of hash m) nodes)
    decides_few_of k {v} here other =
        let few : length (votes_of (view_of hash m) nodes) < 2 ^ 64 =
          omega (arith, length-votes_of_le (view_of hash m)) in
        omega (
          arith,
          decides_few k m {v = v} here other,
          length-view_of,
          total-tally_of (view_of hash m),
          same_count Value.zero decide,
          same_count Value.one decide,
          entry-small Value.zero decide (votes_of (view_of hash m) nodes) few,
          entry-small Value.one decide (votes_of (view_of hash m) nodes) few,
        )
