-- ===== src/Primary/Core/Honest/Hands.antt =====
-- A vote is admitted, or cast, into an election in hand.
use nero_consensus.Primary.Vote.{VoteHash}
use nero_consensus.Prelude.Map.{Map, get}
use nero_consensus.Prelude.{
  ◌≡◌, refl, ◌⊎◌, ◌∙◌, inl, inr, Bool, true, false, Option, none, some, List, arith, ◌==◌, nat_eq,
  Bool-cases, eq_of_beq, subst, sym, ap, absent_of, All, All-map, is_some,
}
use mathlib.Core.Option.{some-injective}
use nero_consensus.Prelude.Map.{insert, contains_key, get-insert, get-insert_self, All-insert}
use nero_consensus.Crypto.{PublicKey}
use nero_consensus.Primary.Vote.{BlockHash, Round, PrimaryVote, Value, decide, digest}
use nero_consensus.Primary.Message.{PrimaryMessage, send_vote}
use nero_consensus.Primary.Election.{RoundState, Election, tally_vote}
use nero_consensus.Primary.Core.State.{Core, Env, Sent, vote_hash, broadcast_message}
use nero_consensus.Primary.Core.Handlers.{load_round, cast_vote, admit_vote}
use nero_consensus.Primary.Core.Rounds.{IsSound, cast_vote-IsSound, admit_vote-IsSound}
use nero_consensus.Primary.Core.Tallied.{
  key_hash, IsAlone, IsFree, cast_vote-Tallied, admit_vote-Tallied,
}
use nero_consensus.Primary.Core.Honest.{
  Judged, Judged-mono, SentIn, own, own_at, Known, Known-mono, Justified, Justified-mono, RoundOk,
  Base,
}
use nero_consensus.Primary.Core.Honest.Puts.{written, written_here, written-Grows, Keeps, Fits}

-- A new key leaves the others.
get-insert_kept :
    (k j : VoteHash) (v w : PrimaryVote) (m : Map VoteHash PrimaryVote)
    → get k m ≡ none
    → get j m ≡ some w
    → get j (insert k v m) ≡ some w
get-insert_kept k j v w m new there = ground (arith, get-insert k j v m)

-- The vote that a message carries.
abbrev pub vote_in : PrimaryVote → PrimaryMessage → PrimaryVote
vote_in v (send_vote w) = w
vote_in v _ = v

module _ (env : Env) (id : PublicKey) (Heard : PrimaryVote → Type 0) (alone : IsAlone env id)
    (h : BlockHash) where
  -- A round that knows whether the node voted in it is free while it did not.
  round_IsFree :
      (e : Election) (r : Round) (rs : RoundState)
      → RoundOk env id Heard h e r rs
      → IsFree (key_hash env id) rs
  round_IsFree e r rs ok = ground (arith, ok.mine)

  own-none :
      (e : Election) (r : Round) (rs : RoundState)
      → RoundOk env id Heard h e r rs
      → rs.voted ≡ false
      → own env id Heard rs ≡ none
  own-none e r rs ok free = absent_of (own env id Heard rs) (ok.mine ∙ free)

  module _ (core : Core) (e : Election) (v : PrimaryVote) (same : core.env ≡ env)
      (this : v.election_hash ≡ h) where
    abbrev old : RoundState
    old = load_round e h v.round

    hash-own : v.signer ≡ id → vote_hash core v ≡ key_hash env id
    unfolding digest
    hash-own signed = rw (same, signed)

    own-cast : v.signer ≡ id → own env id Heard (cast_vote core old v).0 ≡ some v
    unfolding cast_vote tally_vote digest
    own-cast signed =
        let mine : vote_hash core v ≡ key_hash env id = rw (same, signed) in
        rw mine (get-insert_self (key_hash env id) v old.validated_votes)

    own-admit :
        core.id ≡ id
        → (v.signer == id) ≡ false
        → own env id Heard (admit_vote core old v) ≡ own env id Heard old
    unfolding admit_vote tally_vote digest
    own-admit me foreign =
        let hashed : vote_hash core v ≡ key_hash env v.signer = rw same in
        let apart : (vote_hash core v == key_hash env id) ≡ false =
          elim (Bool-cases (vote_hash core v == key_hash env id)) [
            | inl clash ↦ absurd (ground (arith, alone v.signer (sym hashed ∙ eq_of_beq _ _ clash)))
            | inr fine ↦ fine
          ] in
        let other : (v.signer == core.id) ≡ false = rw me foreign in
        rw other
          (rw (get-insert (vote_hash core v) (key_hash env id) v old.validated_votes, apart) refl)

    admit-votes :
        core.id ≡ id
        → (v.signer == id) ≡ false
        → (admit_vote core old v).validated_votes ≡ insert (vote_hash core v) v old.validated_votes
    unfolding admit_vote tally_vote
    admit-votes me foreign =
        let other : (v.signer == core.id) ≡ false = rw me foreign in rw other refl

    pub admit-voted :
        core.id ≡ id → (v.signer == id) ≡ false → (admit_vote core old v).voted ≡ old.voted
    unfolding admit_vote tally_vote
    admit-voted me foreign =
        let other : (v.signer == core.id) ≡ false = rw me foreign in rw other refl

    -- The vote of another node enters the round.
    pub admit-Fits :
        {log : List Sent} {recorded : Option Value}
        → core.id ≡ id
        → (v.signer == id) ≡ false
        → contains_key (vote_hash core v) old.validated_votes ≡ false
        → Heard v
        → Judged env id Heard h e v
        → Base env id Heard h log e recorded
        → Fits env id Heard h e e.is_decided v.round
            (admit_vote core old v)
            log
            log
            recorded
            recorded
    admit-Fits me foreign new heard judged base =
        let ok = base.rounds v.round in
        let kept = own-admit me foreign in
        let keep : Keeps env id Heard h e e.is_decided v.round (admit_vote core old v) =
          λ k w there.
            ap (get k) (admit-votes me foreign)
            ∙ get-insert_kept (vote_hash core v) k v w old.validated_votes (absent_of _ new)
                there in
        let grows =
          written-Grows env id Heard h e e.is_decided v.round (admit_vote core old v) keep in
        record {
          ok = record {
            sound =
                subst (λ n. IsSound n h v.round (admit_vote core old v)) same
                  (admit_vote-IsSound core h v.round old v
                    (subst (λ n. IsSound n h v.round old) (sym same) ok.sound) refl this);
            counts =
                (admit_vote-Tallied env id core v old alone same me new
                  (ok.counts, round_IsFree e v.round old ok)).0;
            known =
                subst
                  (All (λ x.
                    Known env id Heard h (written e.is_decided v.round (admit_vote core old v) e)
                      x.1))
                  (sym (admit-votes me foreign))
                  (All-insert
                    (λ x.
                      Known env id Heard h (written e.is_decided v.round (admit_vote core old v) e)
                        x.1)
                    (vote_hash core v) v old.validated_votes
                    (inl (
                      heard,
                      Judged-mono env id Heard h e
                          (written e.is_decided v.round (admit_vote core old v) e) grows v judged,
                    ))
                    (All-map _ _
                      (λ x.
                        Known-mono env id Heard h e
                          (written e.is_decided v.round (admit_vote core old v) e) grows x.1)
                      old.validated_votes ok.known));
            mine = ap (λ o. is_some o) kept ∙ ok.mine ∙ sym (admit-voted me foreign);
          };
          keep = keep;
          fresh = λ w mine. inl (sym kept ∙ mine);
          longer = λ w out. out;
          stays = λ d. (d, refl);
          kept = λ d. inl d;
          decided = λ x found. inl found;
          sent = λ w out at_h. inl out;
        }

    -- A vote of the node, in a round without one.
    pub cast-Fits :
        (b : Bool) {recorded recorded' : Option Value}
        → v.signer ≡ id
        → old.voted ≡ false
        → Justified env id Heard h e v
        → (v.vote_type ≡ decide → (b ≡ true) × (recorded' ≡ some v.value))
        → (e.is_decided ≡ true → (b ≡ true) × (recorded' ≡ recorded))
        → (b ≡ true → (e.is_decided ≡ true) ⊎ ((x : Value) × (recorded' ≡ some x)))
        → ((x : Value)
            → recorded' ≡ some x
            → (recorded ≡ some x) ⊎ ((v.vote_type ≡ decide) × (v.value ≡ x)))
        → Base env id Heard h core.log e recorded
        → Fits env id Heard h e b v.round
            (cast_vote core old v).0
            core.log
            (cast_vote core old v).1.log
            recorded
            recorded'
    unfolding cast_vote tally_vote broadcast_message
    cast-Fits b {recorded' = recorded'} signed free just decides stays kept decided base =
        let ok = base.rounds v.round in
        let rs1 = (cast_vote core old v).0 in
        let cast = own-cast signed in
        let none_yet = own-none e v.round old ok free in
        let hashed : vote_hash core v ≡ key_hash env id = hash-own signed in
        let keep : Keeps env id Heard h e b v.round rs1 = λ k w there.
          get-insert_kept (vote_hash core v) k v w old.validated_votes
            (ap (λ i. get i old.validated_votes) hashed ∙ none_yet) there in
        let grows = written-Grows env id Heard h e b v.round rs1 keep in
        let mine : own_at env id Heard h (written b v.round rs1 e) v.round ≡ some v =
          ap (own env id Heard) (written_here env id Heard h e b v.round rs1) ∙ cast in
        record {
          ok = record {
            sound =
                subst (λ n. IsSound n h v.round rs1) same
                  (cast_vote-IsSound core h v.round old v
                    (subst (λ n. IsSound n h v.round old) (sym same) ok.sound) refl this);
            counts =
                (cast_vote-Tallied env id core v old same signed free
                  (ok.counts, round_IsFree e v.round old ok)).0;
            known =
                All-insert (λ x. Known env id Heard h (written b v.round rs1 e) x.1)
                  (vote_hash core v) v old.validated_votes (inr mine)
                  (All-map _ _
                    (λ x. Known-mono env id Heard h e (written b v.round rs1 e) grows x.1)
                    old.validated_votes ok.known);
            mine = ap is_some cast;
          };
          keep = keep;
          fresh = λ w new. inr (
              subst
                (λ u.
                  Justified env id Heard h (written b v.round rs1 e) u
                  × (u.vote_type ≡ decide → (b ≡ true) × (recorded' ≡ some u.value))
                  × SentIn u (cast_vote core old v).1.log)
                (some-injective _ _ (sym cast ∙ new))
                (
                  Justified-mono env id Heard h e (written b v.round rs1 e) grows v just,
                  decides,
                  inl refl,
                ));
          longer = λ w out. inr out;
          stays = stays;
          kept = kept;
          decided = λ x found. elim (decided x found) [
            | inl before ↦ inl before
            | inr (kind, value) ↦ inr (v, refl, cast, kind, value)
          ];
          sent = λ w out at_h. elim out [
            | inl now ↦
                let it : v ≡ w = ap (vote_in v) now in
                inr (ap (λ u. u.round) (sym it), cast ∙ ap some it)
            | inr before ↦ inl before
          ];
        }
