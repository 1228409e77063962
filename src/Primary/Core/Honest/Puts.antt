-- ===== src/Primary/Core/Honest/Puts.antt =====
-- A round's state is replaced by one that holds the same own vote, or a first one.
use nero_consensus.Prelude.{
  ◌≡◌, refl, ◌⊎◌, ◌∙◌, inl, inr, Bool, true, if◌then◌else◌, Option, some, List, ◌==◌, nat_eq,
  Bool-cases, eq_of_beq, beq_self, subst, sym, ap,
}
use nero_consensus.Prelude.Map.{get}
use nero_consensus.Crypto.{PublicKey}
use nero_consensus.Primary.Vote.{VoteHash, BlockHash, Round, PrimaryVote, Value, decide}
use nero_consensus.Primary.Election.{RoundState, Election}
use nero_consensus.Primary.Core.State.{Env, Sent}
use nero_consensus.Primary.Core.Handlers.{load_round}
use nero_consensus.Primary.Core.Loads.{put_round, load_round-put}
use nero_consensus.Primary.Core.Tallied.{key_hash}
use nero_consensus.Primary.Core.Honest.{
  SentIn, own, own_at, Grows, Justified, Justified-mono, RoundOk, RoundOk-mono, Base,
}

-- The election, closed or not, with the state written.
abbrev pub written : Bool → Round → RoundState → Election → Election
written b r rs e = put_round r rs (record e { is_decided = b })

module _ (env : Env) (id : PublicKey) (Heard : PrimaryVote → Type 0) (h : BlockHash) (e : Election)
    (b : Bool) (r : Round) (rs : RoundState) where
  pub load_round-written :
      (s : Round) → load_round (written b r rs e) h s ≡ (if r == s then rs else load_round e h s)
  unfolding load_round
  load_round-written s = load_round-put e h r s rs

  pub written_here : load_round (written b r rs e) h r ≡ rs
  written_here = rw (load_round-written r, beq_self r) refl

  -- The votes of the round stay.
  abbrev pub Keeps : Type 0
  Keeps =
      (k : VoteHash) (w : PrimaryVote)
      → get k (load_round e h r).validated_votes ≡ some w
      → get k rs.validated_votes ≡ some w

  pub written-Grows : Keeps → Grows env id Heard h e (written b r rs e)
  written-Grows keep s k w mine = elim (Bool-cases (r == s)) [
    | inl same ↦ rw (load_round-written s, same) (keep k w (rw (eq_of_beq r s same) mine))
    | inr other ↦ rw (load_round-written s, other) mine
  ]

  -- What the new state must satisfy.
  pub record Fits (log log' : List Sent) (recorded recorded' : Option Value) : Type 0 where
    pub ok : RoundOk env id Heard h (written b r rs e) r rs
    pub keep : Keeps
    pub fresh :
        (w : PrimaryVote)
        → own env id Heard rs ≡ some w
        → (own env id Heard (load_round e h r) ≡ some w)
          ⊎ (Justified env id Heard h (written b r rs e) w
              × (w.vote_type ≡ decide → (b ≡ true) × (recorded' ≡ some w.value))
              × SentIn w log')
    pub longer : (w : PrimaryVote) → SentIn w log → SentIn w log'
    pub stays : e.is_decided ≡ true → (b ≡ true) × (recorded' ≡ recorded)
    pub kept : b ≡ true → (e.is_decided ≡ true) ⊎ ((x : Value) × (recorded' ≡ some x))
    pub decided :
        (x : Value)
        → recorded' ≡ some x
        → (recorded ≡ some x)
          ⊎ ((w : PrimaryVote) × (w.round ≡ r)
              × (own env id Heard rs ≡ some w)
              × (w.vote_type ≡ decide)
              × (w.value ≡ x))
    pub sent :
        (w : PrimaryVote)
        → SentIn w log'
        → w.election_hash ≡ h
        → SentIn w log ⊎ ((w.round ≡ r) × (own env id Heard rs ≡ some w))

  module _ {log log' : List Sent} {recorded recorded' : Option Value}
      (fits : Fits log log' recorded recorded') (base : Base env id Heard h log e recorded) where
    written-own :
        (s : Round) (w : PrimaryVote)
        → own_at env id Heard h (written b r rs e) s ≡ some w
        → (own_at env id Heard h e s ≡ some w)
          ⊎ (Justified env id Heard h (written b r rs e) w
              × (w.vote_type ≡ decide → (b ≡ true) × (recorded' ≡ some w.value))
              × SentIn w log')
    written-own s w mine = elim (Bool-cases (r == s)) [
      | inl same ↦
          subst
            (λ t.
              (own_at env id Heard h e t ≡ some w)
              ⊎ (Justified env id Heard h (written b r rs e) w
                  × (w.vote_type ≡ decide → (b ≡ true) × (recorded' ≡ some w.value))
                  × SentIn w log'))
            (eq_of_beq r s same) (fits.fresh w (rw (load_round-written s, same) at mine))
      | inr other ↦ inl (rw (load_round-written s, other) at mine)
    ]

    own_here :
        (w : PrimaryVote)
        → w.round ≡ r
        → own env id Heard rs ≡ some w
        → own_at env id Heard h (written b r rs e) w.round ≡ some w
    own_here w there mine =
        subst (λ s. own_at env id Heard h (written b r rs e) s ≡ some w) (sym there)
          (ap (own env id Heard) written_here ∙ mine)

    pub written-Base : Base env id Heard h log' (written b r rs e) recorded'
    written-Base =
        let grows = written-Grows fits.keep in
        record {
          rounds = λ s. elim (Bool-cases (r == s)) [
            | inl same ↦
                rw (load_round-written s, same)
                  (subst (λ t. RoundOk env id Heard h (written b r rs e) t rs) (eq_of_beq r s same)
                    fits.ok)
            | inr other ↦
                rw (load_round-written s, other)
                  (RoundOk-mono env id Heard h e (written b r rs e) s (load_round e h s) grows
                    (base.rounds s))
          ];
          justified = λ s w mine. elim (written-own s w mine) [
            | inl old ↦
                Justified-mono env id Heard h e (written b r rs e) grows w (base.justified s w old)
            | inr new ↦ new.0
          ];
          closed = λ s w mine decides. elim (written-own s w mine) [
            | inl old ↦
                let (done, value) = base.closed s w old decides in
                let (still, same) = fits.stays done in (still, same ∙ value)
            | inr new ↦ new.1 decides
          ];
          kept = λ done. elim (fits.kept done) [
            | inl before ↦ let (x, found) = base.kept before in (x, (fits.stays before).1 ∙ found)
            | inr now ↦ now
          ];
          decided = λ x found. elim (fits.decided x found) [
            | inl old ↦
                let (w, mine, kind, for_x) = base.decided x old in
                (w, grows w.round (key_hash env id) w mine, kind, for_x)
            | inr (w, there, mine, kind, for_x) ↦ (w, own_here w there mine, kind, for_x)
          ];
          sent = λ w out this. elim (fits.sent w out this) [
            | inl old ↦ grows w.round (key_hash env id) w (base.sent w old this)
            | inr (there, mine) ↦ own_here w there mine
          ];
          out = λ s w mine. elim (written-own s w mine) [
            | inl old ↦ fits.longer w (base.out s w old)
            | inr new ↦ new.2
          ];
        }
