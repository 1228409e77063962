-- ===== src/Protocol/Decisions.antt =====
-- What the honest nodes of a network decide.
use nero_consensus.Prelude.{
  ℕ, zero, suc, ◌+◌, ◌-◌, ◌≤◌, ◌<◌, ◌≡◌, inl, inr, Bool, true, some, List, sym, subst, arith,
  nat_eq, Bool-cases, length, leb,
}
use nero_consensus.Prelude.Map.{get}
use nero_consensus.Prelude.Sets.{contains, Distinct}
use nero_consensus.Crypto.{PublicKey}
use nero_consensus.Primary.General.{number_of_total_nodes}
use nero_consensus.Primary.Vote.{BlockHash, Round, Value, decide}
use nero_consensus.Primary.Election.{Tally}
use nero_consensus.Primary.Election.Tallies.{entry}
use nero_consensus.Primary.Core.State.{Core, Env}
use nero_consensus.Protocol.Phases.{Initial, Leaning, Locked}
use nero_consensus.Protocol.Network.{IsInjective, IsMember}
use nero_consensus.Protocol.Members.{IsHonest, member-Full, held-accepted}
use nero_consensus.Protocol.Stages.{
  cast_tally, some_of, Locked-Locked, Leaning-Locked, first_Initial, stage,
}

-- Only a round that stands for a value holds votes that decide, and these for that value.
pub Initial-open : (t : Tally) (x : Value) → Initial t → 0 < entry x decide t → ⊥
Initial-open t Value.zero i some_ = omega (arith, i.zero_decides)
Initial-open t Value.one i some_ = omega (arith, i.one_decides)

pub Leaning-open : (t : Tally) (x y : Value) → Leaning x t → 0 < entry y decide t → ⊥
Leaning-open t x y l some_ = ground arith

pub Locked-value : (t : Tally) (x y : Value) → Locked x t → 0 < entry y decide t → x ≡ y
Locked-value t x y l some_ = ground arith

module _ (env : Env) (nodes : List PublicKey) (cores : PublicKey → Core)
    (byzantine : PublicKey → Bool)
    (members : (n : PublicKey) → contains n nodes ≡ true → IsMember env nodes cores byzantine n)
    (only : IsInjective env) (size : length nodes ≡ number_of_total_nodes)
    (distinct : Distinct nodes) where
  abbrev pub casts : BlockHash → Round → Tally
  casts = cast_tally env nodes cores byzantine members only size distinct

  -- A vote that decides stands in a round that is locked to its value.
  decide_Locked :
      (h : BlockHash) (r : Round) (x : Value)
      → 0 < entry x decide (casts h r)
      → Locked x (casts h r)
  decide_Locked h r x votes =
      elim (stage env nodes cores byzantine members only size distinct h r) [
        | inl i ↦ absurd (Initial-open (casts h r) x i votes)
        | inr (y, inl l) ↦ absurd (Leaning-open (casts h r) y x l votes)
        | inr (y, inr l) ↦
            subst (λ z. Locked z (casts h r)) (Locked-value (casts h r) y x l votes) l
      ]

  Locked-on :
      (h : BlockHash) (r : Round) (x : Value) (k : ℕ)
      → Locked x (casts h r)
      → Locked x (casts h (k + r))
  Locked-on h r x zero l = subst (λ s. Locked x (casts h s)) (omega arith) l
  Locked-on h r x (suc k) l =
      subst (λ s. Locked x (casts h s)) (omega arith)
        (Locked-Locked env nodes cores byzantine members only size distinct h x (k + r)
          (Locked-on h r x k l))

  ordered_agree :
      (h : BlockHash) (r s : Round) (x y : Value)
      → r ≤ s
      → 0 < entry x decide (casts h r)
      → 0 < entry y decide (casts h s)
      → x ≡ y
  ordered_agree h r s x y le dx dy =
      let there : Locked x (casts h ((s - r) + r)) =
        Locked-on h r x (s - r) (decide_Locked h r x dx) in
      Locked-value (casts h s) x y (subst (λ t. Locked x (casts h t)) (omega arith) there) dy

  decides_agree :
      (h : BlockHash) (r s : Round) (x y : Value)
      → 0 < entry x decide (casts h r)
      → 0 < entry y decide (casts h s)
      → x ≡ y
  decides_agree h r s x y dx dy = elim (Bool-cases (leb r s)) [
    | inl le ↦ ordered_agree h r s x y (ground arith) dx dy
    | inr gt ↦ sym (ordered_agree h s r y x (ground arith) dy dx)
  ]

  -- A recorded value is that of a vote that decides.
  pub recorded_vote :
      (n : PublicKey)
      → IsHonest env nodes cores byzantine members only n
      → (h : BlockHash) (x : Value) → get h (cores n).decided ≡ some x
      → (r : Round) × (0 < entry x decide (casts h r))
  recorded_vote n honest h x found =
      let (w, mine, kind, value) =
        (member-Full env nodes cores byzantine members only h n honest).base.decided x found in
      (
        w.round,
        subst (λ y. 0 < entry y decide (casts h w.round)) value
            (subst (λ y. 0 < entry w.value y (casts h w.round)) kind
              (some_of env nodes cores byzantine members only size distinct h w.round n w honest.0 (
                held-accepted env nodes cores byzantine members only h n honest w.round n w mine))),
      )

  -- No two honest nodes of four record different values for an election, whichever of the four run with
  -- `byzantine` set, in whatever rounds they decide, whatever votes get lost or are delayed and in
  -- whatever order each node receives them and transactions: every vote that a node receives was sent
  -- by its signer, in a round that is not the last of a `u32` if the signer is another node, and no two
  -- keys have one digest.
  pub recorded_agree :
      (n m : PublicKey) (h : BlockHash) (x y : Value)
      → IsHonest env nodes cores byzantine members only n
      → IsHonest env nodes cores byzantine members only m
      → get h (cores n).decided ≡ some x
      → get h (cores m).decided ≡ some y
      → x ≡ y
  recorded_agree n m h x y honest too found other =
      let (r, dx) = recorded_vote n honest h x found in
      let (s, dy) = recorded_vote m too h y other in decides_agree h r s x y dx dy

  -- When the votes of round 1 lean to a value, the later ones stand for it.
  module _ (h : BlockHash) (x : Value) (second : Leaning x (casts h 1)) where
    pub later_Locked : (k : ℕ) → Locked x (casts h (suc (suc k)))
    later_Locked zero =
        Leaning-Locked env nodes cores byzantine members only size distinct h x 1 second
    later_Locked (suc k) =
        Locked-Locked env nodes cores byzantine members only size distinct h x (suc (suc k))
          (later_Locked k)

    -- So none but that value is ever decided.
    pub settled_value : (r : Round) (y : Value) → 0 < entry y decide (casts h r) → x ≡ y
    settled_value zero y votes = absurd (
        Initial-open (casts h 0) y
          (first_Initial env nodes cores byzantine members only size distinct h) votes)
    settled_value (suc zero) y votes = absurd (Leaning-open (casts h 1) x y second votes)
    settled_value (suc (suc k)) y votes =
        Locked-value (casts h (suc (suc k))) x y (later_Locked k) votes
