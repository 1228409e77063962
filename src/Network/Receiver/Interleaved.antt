-- ===== src/Network/Receiver/Interleaved.antt =====
-- The runners of a receiver, taking turns in any order.
use nero_consensus.Prelude.{
  ◌≡◌, refl, sym, ap, ◌∙◌, inl, inr, Bool, false, Option, List, [], ◌∷◌, ◌++◌, ◌==◌, nat_eq, arith,
  Bool-cases, is_some, ◌&&◌, ◌||◌, Option-cases, if◌then◌else◌, nat_beq_iff,
}
use nero_consensus.Prelude.Sets.{contains, contains-include, contains-remove}
use nero_consensus.Network.Address.{Bytes}
use nero_consensus.Network.Receiver.{
  message, failed_to_receive, Connection, Arrival, accepted, failed_to_accept, arrived, closed,
  Receiver, on_frame, on_arrival,
}

-- Whether an arrival is one of this connection.
abbrev is_own : Connection → Arrival → Bool
is_own c (accepted d) = d == c
is_own c failed_to_accept = false
is_own c (arrived d frame) = d == c
is_own c (closed d) = d == c

abbrev pub own : Connection → List Arrival → List Arrival
own c [] = []
own c (a ∷ arrivals) = if is_own c a then a ∷ own c arrivals else own c arrivals

module _ {ℓ} {S : Type ℓ} (dispatch : Bytes → S → Option S) where
  -- What an arrival hands from this connection to the handler, which takes it.
  abbrev passed : Connection → Receiver dispatch → Arrival → List Bytes
  passed c r (arrived d (message bytes)) =
      if d == c && contains c r.running && is_some (dispatch bytes r.shared) then bytes ∷ [] else []
  passed c r _ = []

  unfoldable pub taken_of : Connection → Receiver dispatch → List Arrival → List Bytes
  taken_of c r [] = []
  taken_of c r (a ∷ arrivals) = passed c r a ++ taken_of c (on_arrival dispatch r a) arrivals

module _ (takes : Bytes → Bool) (c : Connection) where
  -- The same from the arrivals of the connection alone, given whether its runner goes on.
  abbrev goes_on : Bool → Arrival → Bool
  goes_on live (accepted d) = d == c || live
  goes_on live failed_to_accept = live
  goes_on live (arrived d failed_to_receive) = if d == c then false else live
  goes_on live (arrived d (message bytes)) = if d == c then live && takes bytes else live
  goes_on live (closed d) = if d == c then false else live

  abbrev hands_on : Bool → Arrival → List Bytes
  hands_on live (arrived d (message bytes)) =
      if d == c && live && takes bytes then bytes ∷ [] else []
  hands_on live _ = []

  unfoldable alone : Bool → List Arrival → List Bytes
  alone live [] = []
  alone live (a ∷ arrivals) = hands_on live a ++ alone (goes_on live a) arrivals

  alone-other :
      (live : Bool) (a : Arrival) (arrivals : List Arrival)
      → is_own c a ≡ false
      → alone live (a ∷ arrivals) ≡ alone live arrivals
  unfolding alone
  alone-other live (accepted d) arrivals other = rw other refl
  alone-other live failed_to_accept arrivals other = refl
  alone-other live (arrived d failed_to_receive) arrivals other = rw other refl
  alone-other live (arrived d (message bytes)) arrivals other = rw other refl
  alone-other live (closed d) arrivals other = rw other refl

  alone-own :
      (live : Bool) (arrivals : List Arrival) → alone live (own c arrivals) ≡ alone live arrivals
  unfolding alone
  alone-own live [] = refl
  alone-own live (a ∷ arrivals) = elim (Bool-cases (is_own c a)) [
    | inl mine ↦ rw mine (ap (λ l. hands_on live a ++ l) (alone-own (goes_on live a) arrivals))
    | inr other ↦ rw other (alone-own live arrivals ∙ sym (alone-other live a arrivals other))
  ]

module _ {ℓ} {S : Type ℓ} (dispatch : Bytes → S → Option S) (takes : Bytes → Bool)
    (fair : (bytes : Bytes) (s : S) → is_some (dispatch bytes s) ≡ takes bytes) where
  on_frame-running :
      (c d : Connection) (r : Receiver dispatch) (bytes : Bytes)
      → contains c (on_frame dispatch r d (message bytes)).running
        ≡ (if d == c then contains c r.running && takes bytes else contains c r.running)
  unfolding on_frame
  on_frame-running c d r bytes = elim (Option-cases (dispatch bytes r.shared)) [
    | inl refused ↦ ground (arith, fair bytes r.shared, contains-remove d c r.running)
    | inr (s, took) ↦ ground (arith, fair bytes r.shared)
  ]

  on_arrival-running :
      (c : Connection) (r : Receiver dispatch) (a : Arrival)
      → contains c (on_arrival dispatch r a).running ≡ goes_on takes c (contains c r.running) a
  unfolding on_arrival on_frame
  on_arrival-running c r (accepted d) = contains-include d c r.running
  on_arrival-running c r failed_to_accept = refl
  on_arrival-running c r (arrived d failed_to_receive) =
      ground (arith, contains-remove d c r.running, nat_beq_iff d c)
  on_arrival-running c r (arrived d (message bytes)) =
      ground (arith, on_frame-running c d r bytes, nat_beq_iff d c)
  on_arrival-running c r (closed d) = contains-remove d c r.running

  passed-hands_on :
      (c : Connection) (r : Receiver dispatch) (a : Arrival)
      → passed dispatch c r a ≡ hands_on takes c (contains c r.running) a
  passed-hands_on c r (accepted d) = refl
  passed-hands_on c r failed_to_accept = refl
  passed-hands_on c r (arrived d failed_to_receive) = refl
  passed-hands_on c r (arrived d (message bytes)) = rw (fair bytes r.shared) refl
  passed-hands_on c r (closed d) = refl

  taken_of-alone :
      (c : Connection) (r : Receiver dispatch) (arrivals : List Arrival)
      → taken_of dispatch c r arrivals ≡ alone takes c (contains c r.running) arrivals
  unfolding taken_of alone
  taken_of-alone c r [] = refl
  taken_of-alone c r (a ∷ arrivals) =
      rw (passed-hands_on c r a, sym (on_arrival-running c r a))
        (ap (λ l. hands_on takes c (contains c r.running) a ++ l)
          (taken_of-alone c (on_arrival dispatch r a) arrivals))

  -- Whatever the other connections do meanwhile, the messages that reach the handler from one
  -- connection are those, in that order, that would reach it if this connection were alone, for a
  -- handler that takes or refuses a message whatever its state is.
  pub taken_of-own :
      (c : Connection) (r : Receiver dispatch) (arrivals : List Arrival)
      → taken_of dispatch c r arrivals ≡ taken_of dispatch c r (own c arrivals)
  taken_of-own c r arrivals =
      taken_of-alone c r arrivals
      ∙ sym (alone-own takes c (contains c r.running) arrivals)
      ∙ sym (taken_of-alone c r (own c arrivals))
