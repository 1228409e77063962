-- ===== src/Primary/Core/Loads.antt =====
-- What the handlers read of an election and of a round, before and after a write.
use nero_consensus.Prelude.{
  ◌≡◌, inl, inr, some, arith, ◌==◌, nat_eq, if◌then◌else◌, Bool-cases, eq_of_beq, beq_self, subst,
  ap,
}
use nero_consensus.Prelude.Map.{insert, insert_twice, get-insert}
use nero_consensus.Primary.Vote.{BlockHash, Round}
use nero_consensus.Primary.Election.{RoundState, Election}
use nero_consensus.Primary.Core.State.{Core}
use nero_consensus.Primary.Core.Validate.{find_round}
use nero_consensus.Primary.Core.Handlers.{load_election, load_round, store_election}

-- The state of a round of an election, new if there is none.
abbrev pub round_of : Core → BlockHash → Round → RoundState
round_of core hash round = load_round (load_election core hash) hash round

-- `election.state.insert`
abbrev pub put_round : Round → RoundState → Election → Election
put_round round rs election = record election { state = insert round rs election.state }

pub load_election-store :
    (core : Core) (h j : BlockHash) (e : Election)
    → load_election (store_election core h e) j ≡ (if h == j then e else load_election core j)
unfolding load_election store_election
load_election-store core h j e = ground (arith, get-insert h j e core.elections)

pub load_round-put :
    (e : Election) (h : BlockHash) (r s : Round) (rs : RoundState)
    → load_round (put_round r rs e) h s ≡ (if r == s then rs else load_round e h s)
unfolding load_round
load_round-put e h r s rs = ground (arith, get-insert r s rs e.state)

-- A property of what was written and of all that stood there holds of all that is read afterwards.
pub store_elim {ℓ} :
    (P : BlockHash → Election → Type ℓ) (core : Core) (h : BlockHash) (e : Election)
    → P h e
    → ((j : BlockHash) → P j (load_election core j))
    → (j : BlockHash) → P j (load_election (store_election core h e) j)
store_elim P core h e p all j = elim (Bool-cases (h == j)) [
  | inl same ↦ rw (load_election-store core h j e, same) (subst (λ x. P x e) (eq_of_beq h j same) p)
  | inr other ↦ rw (load_election-store core h j e, other) (all j)
]

-- The same after another write to the same election.
pub store_replace {ℓ} :
    (P : BlockHash → Election → Type ℓ) (core : Core) (h : BlockHash) (d e : Election)
    → P h e
    → ((j : BlockHash) → P j (load_election (store_election core h d) j))
    → (j : BlockHash) → P j (load_election (store_election core h e) j)
store_replace P core h d e p all j = elim (Bool-cases (h == j)) [
  | inl same ↦ rw (load_election-store core h j e, same) (subst (λ x. P x e) (eq_of_beq h j same) p)
  | inr other ↦
      rw (load_election-store core h j e, other)
        (subst (P j) (rw (load_election-store core h j d, other)) (all j))
]

-- A property of all that is read holds of what was written last.
pub store_read {ℓ} :
    (P : Election → Type ℓ) (core : Core) (h : BlockHash) (e : Election)
    → P (load_election (store_election core h e) h)
    → P e
store_read P core h e p = subst P (rw (load_election-store core h h e, beq_self h)) p

pub load_election-store_self :
    (core : Core) (h j : BlockHash)
    → load_election (store_election core h (load_election core h)) j ≡ load_election core j
load_election-store_self core h j =
    ground (arith, load_election-store core h j (load_election core h))

pub put_elim {ℓ} :
    (P : Round → RoundState → Type ℓ) (e : Election) (h : BlockHash) (r : Round) (rs : RoundState)
    → P r rs
    → ((s : Round) → P s (load_round e h s))
    → (s : Round) → P s (load_round (put_round r rs e) h s)
put_elim P e h r rs p all s = elim (Bool-cases (r == s)) [
  | inl same ↦ rw (load_round-put e h r s rs, same) (subst (λ x. P x rs) (eq_of_beq r s same) p)
  | inr other ↦ rw (load_round-put e h r s rs, other) (all s)
]

pub round_of-store :
    (core : Core) (h j : BlockHash) (e : Election) (s : Round)
    → round_of (store_election core h e) j s
      ≡ (if h == j then load_round e h s else round_of core j s)
round_of-store core h j e s = ground (arith, load_election-store core h j e)

-- Writing an election back changes nothing that is read.
pub round_of-store_self :
    (core : Core) (h j : BlockHash) (s : Round)
    → round_of (store_election core h (load_election core h)) j s ≡ round_of core j s
round_of-store_self core h j s = ground (arith, round_of-store core h j (load_election core h) s)

pub round_of-find :
    (core : Core) (h : BlockHash) (r : Round) {rs : RoundState}
    → find_round core h r ≡ some rs
    → round_of core h r ≡ rs
unfolding find_round load_election load_round
round_of-find core h r found = ground arith

-- Of two writes to one round, or to one election, the later one stays.
pub put_round_twice :
    (r : Round) (rs rs' : RoundState) (e : Election)
    → put_round r rs' (put_round r rs e) ≡ put_round r rs' e
put_round_twice r rs rs' e = ap (λ m. record e { state = m }) (insert_twice r rs rs' e.state)

pub store_election_twice :
    (core : Core) (h : BlockHash) (d e : Election)
    → store_election (store_election core h d) h e ≡ store_election core h e
unfolding store_election
store_election_twice core h d e =
    ap (λ m. record core { elections = m }) (insert_twice h d e core.elections)
