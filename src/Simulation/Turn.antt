-- ===== src/Simulation/Turn.antt =====
-- node/src/consensus.rs: one turn of the loop of an instance.
use nero_consensus.Prelude.{
  ℕ, suc, ◌+◌, ◌-◌, ◌%◌, ◌^◌, Bool, true, not, ◌&&◌, Option, none, some, List, [], ◌∷◌, ◌++◌, leb,
  ◌==◌, nat_eq, if◌then◌else◌, length, get_elem?, replicate, ◌>>=◌,
}
use nero_consensus.Prelude.Map.{Map, get, insert}
use nero_consensus.Prelude.Sets.{contains}
use nero_consensus.Simulation.{
  number_of_nodes, number_of_byzantine_nodes, number_of_honest_nodes, quorum, Ballot, delayed, zero,
  one, ballot_eq, slot_eq, Sim, for_each, cast_byzantine,
}

-- A round after another, as a `usize`.
abbrev pub next : ℕ → ℕ
next round = (round + 1) % 2 ^ 64

-- What node `i` sees of the votes of a round, over `n` nodes from `j` on; a panic is an index out of bounds.
unfoldable pub count_round : Sim → ℕ → ℕ → Ballot → ℕ → ℕ → Option ℕ
unfolding get contains
count_round s i round value j ℕ.zero = some 0
count_round s i round value j (suc n) = do
  here ← elim (get (record { node = j; round = round }) s.votes) [
    | none ↦ some 0
    | some votes ↦ do
      seen ← get_elem? votes i
      some (if seen == value && not (contains j s.excluded_nodes) then 1 else 0)
  ]
  rest ← count_round s i round value (j + 1) n
  some (here + rest)

-- `vec![value; NUMBER_OF_NODES]` for the next round.
unfoldable pub vote_next : ℕ → ℕ → Ballot → Sim → Sim
vote_next i round value s = record s {
  votes =
      insert (record { node = i; round = next round }) (replicate number_of_nodes value) s.votes;
}

-- `if current_round != 0`: a quorum in the round before as well decides.
unfoldable pub try_decide : ℕ → ℕ → Ballot → List ℕ → Sim → Sim
unfolding contains
try_decide i round value rounds s =
    if not (round == 0) && contains (round - 1) rounds
    then record s { decided = insert i value s.decided }
    else s

-- The vote of a node that has not decided, and the rounds in which it saw a quorum.
unfoldable pub vote_counted : ℕ → ℕ → ℕ → ℕ → List ℕ → List ℕ → Sim → Sim
unfolding vote_next try_decide
vote_counted i round zeros ones one_rounds zero_rounds s =
    if leb quorum ones
    then try_decide i round one (one_rounds ++ round ∷ []) (
        vote_next i round one
          (record s { one_quorum = insert i (one_rounds ++ round ∷ []) s.one_quorum }))
    else if leb quorum zeros
    then try_decide i round zero (zero_rounds ++ round ∷ []) (
        vote_next i round zero
          (record s { zero_quorum = insert i (zero_rounds ++ round ∷ []) s.zero_quorum }))
    else vote_next i round zero s

unfoldable pub vote_undecided : ℕ → ℕ → ℕ → ℕ → Sim → Option Sim
unfolding vote_counted
vote_undecided i round zeros ones s = do
  one_rounds ← get i s.one_quorum
  zero_rounds ← get i s.zero_quorum
  some (vote_counted i round zeros ones one_rounds zero_rounds s)

-- The vote of a node: once it has decided, for the decided value.
unfoldable pub vote : ℕ → ℕ → ℕ → ℕ → Sim → Option Sim
unfolding vote_undecided
vote i round zeros ones s = elim (get i s.decided) [
  | none ↦ vote_undecided i round zeros ones s
  | some value ↦ some (vote_next i round value s)
]

-- The loop that replaces each -1, over the votes that are done and those that are left.
unfoldable pub deliver : List Ballot → List Ballot → List Ballot
unfolding contains
deliver done [] = done
deliver done (v ∷ rest) =
    let w = if v == delayed then (if contains one (done ++ v ∷ rest) then one else zero) else v in
    deliver (done ++ w ∷ []) rest

-- The delayed vote of node `j` arrives.
unfoldable pub arrive : ℕ → ℕ → Sim → Option Sim
unfolding deliver
arrive round j s = some (elim (get (record { node = j; round = round }) s.votes) [
  | none ↦ s
  | some v ↦ record s { votes = insert (record { node = j; round = round }) (deliver [] v) s.votes }
])

-- Node `i` goes to the next round, or waits for votes.
unfoldable pub advance : ℕ → Sim → Option Sim
unfolding count_round vote arrive for_each
advance i s = do
  round ← get i s.nodes
  zeros ← count_round s i round zero 0 number_of_nodes
  ones ← count_round s i round one 0 number_of_nodes
  if leb quorum (zeros + ones)
      then (do
        s1 ← vote i round zeros ones s
        some (record s1 { nodes = insert i (next round) s1.nodes }))
      else for_each (arrive round) 0 number_of_honest_nodes s

-- A new vote of byzantine node `i`, which is excluded if its last one was seen as 0 and as 1.
unfoldable pub byzantine_turn : ℕ → Sim → Option Sim
unfolding cast_byzantine contains
byzantine_turn i s = do
  let node = number_of_honest_nodes + i
  round ← get node s.nodes
  old_votes ← get (record { node = node; round = round }) s.votes
  let s1 =
      if contains one old_votes && contains zero old_votes
      then record s { excluded_nodes = s.excluded_nodes ++ node ∷ [] }
      else s
  some (cast_byzantine node (next round) s1)

-- `decided.iter().all(|(a, b)| b == d)`
unfoldable pub all_decided : Ballot → Map ℕ Ballot → Bool
all_decided d [] = true
all_decided d ((_, b) ∷ rest) = b == d && all_decided d rest

-- The end of the loop: with a value, the instance is over.
unfoldable pub conclude : Sim → Option (Sim × Option Ballot)
unfolding byzantine_turn all_decided for_each
conclude s =
    if length s.decided == number_of_honest_nodes
    then (do d ← get 0 s.decided; if all_decided d s.decided then some (s, some d) else none)
    else (do s1 ← for_each byzantine_turn 0 number_of_byzantine_nodes s; some (s1, none))

-- The votes of node `i` are there to be printed.
unfoldable pub print_votes : ℕ → Sim → Option Sim
unfolding for_each
print_votes i s = do
  round ← get i s.nodes
  for_each (λ j s. do _ ← get (record { node = i; round = j }) s.votes; some s) 0 (round + 1) s

-- A turn of the loop.
unfoldable pub turn : Sim → Option (Sim × Option Ballot)
unfolding advance conclude print_votes
turn s = do
  s1 ← for_each print_votes 0 number_of_nodes s
  s2 ← for_each advance 0 number_of_honest_nodes s1
  conclude s2

-- An instance of `n` turns at most, with the value it ends with, if it ends.
unfoldable pub turns : ℕ → Sim → Option (Sim × Option Ballot)
unfolding turn
turns ℕ.zero s = some (s, none)
turns (suc n) s = do
  (s1, conclusion) ← turn s
  elim conclusion [ none ↦ turns n s1 | some d ↦ some (s1, some d) ]
