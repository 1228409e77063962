-- ===== src/Network/Connection/Delivery.antt =====
-- No message is lost or overtakes another, whatever the network does.
use mathlib.Core.List.{append-nil, append_assoc, map-append}
use nero_consensus.Prelude.{
  ◌≡◌, refl, ap, ◌∙◌, sym, ◌⊎◌, inl, inr, Bool, true, false, Option, none, some, List, [], ◌∷◌,
  ◌++◌, map, arith, if◌then◌else◌, Bool-cases, Option-cases, All, is_some,
}
use nero_consensus.Network.Address.{Bytes, SocketAddr}
use nero_consensus.Network.ReliableSender.{CancelHandler, InnerMessage}
use nero_consensus.Network.Connection.{
  Session, flush, Select, message_received, acknowledged, broken, on_response, on_select, Turn,
  turn, put_back, turns, keep_alive,
}

-- What was delivered, what waits for a reply, and what is still to be sent, in this order.
abbrev pub in_order : Session → List InnerMessage
in_order s = map (λ e. e.0) s.delivered ++ (s.pending_replies ++ s.buffer)

-- The messages of the callers.
abbrev pub arrived : Select → List InnerMessage
arrived (message_received m) = m ∷ []
arrived (acknowledged bytes) = []
arrived broken = []

abbrev pub arrivals : List Turn → List InnerMessage
arrivals [] = []
arrivals (t ∷ rest) = arrived t.selected ++ arrivals rest

-- The messages whose handlers pass the test.
unfoldable pub only : (CancelHandler → Bool) → List InnerMessage → List InnerMessage
only live [] = []
only live (m ∷ ms) = let rest = only live ms in if live m.cancel_handler then m ∷ rest else rest

only-append :
    (live : CancelHandler → Bool) (xs ys : List InnerMessage)
    → only live (xs ++ ys) ≡ only live xs ++ only live ys
unfolding only
only-append live [] ys = refl
only-append live (x ∷ xs) ys = ground (arith, only-append live xs ys)

-- No handler that passes the test is ever closed.
abbrev pub StaysOpen : (CancelHandler → Bool) → Turn → Type 0
StaysOpen live t = (h : CancelHandler) → live h ≡ true → t.closed h ≡ false

module _ (live : CancelHandler → Bool) where
  only-closed :
      (pending buffer : List InnerMessage) (m : InnerMessage)
      → live m.cancel_handler ≡ false
      → only live (pending ++ buffer) ≡ only live (pending ++ m ∷ buffer)
  unfolding only
  only-closed [] buffer m dead = rw dead
  only-closed (p ∷ pending) buffer m dead = ground (arith, only-closed pending buffer m dead)

  flush_order :
      (closed writes : CancelHandler → Bool) (buffer pending : List InnerMessage)
      → ((h : CancelHandler) → live h ≡ true → closed h ≡ false)
      → let f = flush closed writes buffer pending in
        only live (f.waiting ++ f.left) ≡ only live (pending ++ buffer)
  unfolding flush
  flush_order closed writes [] pending open_all = refl
  flush_order closed writes (m ∷ buffer) pending open_all =
      elim (Bool-cases (closed m.cancel_handler)) [
        | inl dead ↦ rw dead (
            flush_order closed writes buffer pending open_all
            ∙ only-closed pending buffer m (ground (arith, open_all m.cancel_handler)))
        | inr alive ↦ rw alive (elim (Bool-cases (writes m.cancel_handler)) [
          | inl sent ↦ rw sent (
              flush_order closed writes buffer (pending ++ m ∷ []) open_all
              ∙ rw (append_assoc pending (m ∷ []) buffer))
          | inr failed ↦ rw failed
        ])
      ]

  response_order :
      (response : Option Bytes) (address : SocketAddr) (buffer pending : List InnerMessage)
      (told : List (InnerMessage × Bytes))
      → let s : Session = record {
        address = address;
        buffer = buffer;
        pending_replies = pending;
        delivered = told;
      } in
        in_order (on_response response s).0 ≡ in_order s
  unfolding on_response
  response_order response address buffer [] told = refl
  response_order none address buffer (m ∷ pending) told = refl
  response_order (some bytes) address buffer (m ∷ pending) told =
      rw (map-append (λ e. e.0) told ((m, bytes) ∷ []))
        (append_assoc (map (λ e. e.0) told) (m ∷ []) (pending ++ buffer))

  flushed_order :
      (t : Turn) (s : Session)
      → StaysOpen live t
      → let f = flush t.closed t.writes s.buffer s.pending_replies in
        only live (map (λ e. e.0) s.delivered ++ (f.waiting ++ f.left)) ≡ only live (in_order s)
  flushed_order t s open_all =
      let f = flush t.closed t.writes s.buffer s.pending_replies in
      let told = map (λ e. e.0) s.delivered in
      only-append live told (f.waiting ++ f.left)
      ∙ ap (λ ms. only live told ++ ms)
          (flush_order t.closed t.writes s.buffer s.pending_replies open_all)
      ∙ sym (only-append live told (s.pending_replies ++ s.buffer))

  select_order :
      (e : Select) (s : Session)
      → only live (in_order (on_select e s).0) ≡ only live (in_order s ++ arrived e)
  unfolding on_select
  select_order (message_received m) s =
      let told = map (λ e. e.0) s.delivered in
      ap (only live) (
        ap (λ ms. told ++ ms) (sym (append_assoc s.pending_replies s.buffer (m ∷ [])))
        ∙ sym (append_assoc told (s.pending_replies ++ s.buffer) (m ∷ [])))
  select_order (acknowledged bytes) s = rw (append-nil (in_order s)) (
      ap (only live) (response_order (some bytes) s.address s.buffer s.pending_replies s.delivered))
  select_order broken s =
      rw (append-nil (in_order s))
        (ap (only live) (response_order none s.address s.buffer s.pending_replies s.delivered))

  received_none : (e : Select) (s : Session) → ((on_select e s).1 ≡ none) ⊎ (arrived e ≡ [])
  unfolding on_select
  received_none (message_received m) s = inl refl
  received_none (acknowledged bytes) s = inr refl
  received_none broken s = inr refl

  turn_order :
      (t : Turn) (s : Session)
      → StaysOpen live t
      → let r = turn t s in
        (heard rest : List InnerMessage) × (arrived t.selected ≡ heard ++ rest)
        × (only live (in_order r.0) ≡ only live (in_order s ++ heard))
        × ((is_some r.1 ≡ true) ⊎ (rest ≡ []))
  unfolding turn
  turn_order t s open_all =
      let f = flush t.closed t.writes s.buffer s.pending_replies in
      let s1 : Session = record s { buffer = f.left; pending_replies = f.waiting } in
      elim (Bool-cases f.failed) [
        | inl failed ↦ rw failed (
          [],
          arrived t.selected,
          refl,
          rw (append-nil (in_order s)) (flushed_order t s open_all),
          inl refl,
        )
        | inr sent ↦ rw sent (
          arrived t.selected,
          [],
          sym (append-nil (arrived t.selected)),
          select_order t.selected s1
              ∙ only-append live (in_order s1) (arrived t.selected)
              ∙ ap (λ ms. ms ++ only live (arrived t.selected)) (flushed_order t s open_all)
              ∙ sym (only-append live (in_order s) (arrived t.selected)),
          inr refl,
        )
      ]

  put_back_order : (s : Session) → in_order (put_back s) ≡ in_order s
  unfolding put_back
  put_back_order s = refl

  turns-turn :
      (t : Turn) (script : List Turn) (s : Session)
      → let r = turn t s in
        turns s (t ∷ script)
        ≡ elim r.1 [ none ↦ turns r.0 script | some e ↦ (put_back r.0, some e) ]
  unfolding turns turn
  turns-turn t script s = refl

  turns_order :
      (script : List Turn) (s : Session)
      → All (StaysOpen live) script
      → let r = turns s script in
        (heard rest : List InnerMessage) × (arrivals script ≡ heard ++ rest)
        × (only live (in_order r.0) ≡ only live (in_order s ++ heard))
        × ((is_some r.1 ≡ true) ⊎ (rest ≡ []))
  unfolding turns
  turns_order [] s h = ([], [], refl, ap (only live) (sym (append-nil (in_order s))), inr refl)
  turns_order (t ∷ script) s h =
      let (heard, rest, split, order, all_of) = turn_order t s h.0 in
      let r = turn t s in
      elim (Option-cases r.1) [
        | inl ok ↦
            rw (turns-turn t script s, ok)
              (let (heard', rest', split', order', all_of') = turns_order script r.0 h.1 in
                let whole =
                  split ∙ ap (λ ms. heard ++ ms) (ground (arith, all_of)) ∙ append-nil heard in
                (
                  heard ++ heard',
                  rest',
                  rw (whole, split') (sym (append_assoc heard heard' rest')),
                  order'
                      ∙ only-append live (in_order r.0) heard'
                      ∙ ap (λ ms. ms ++ only live heard') order
                      ∙ sym (only-append live (in_order s ++ heard) heard')
                      ∙ ap (only live) (append_assoc (in_order s) heard heard'),
                  all_of',
                ))
        | inr (e, bad) ↦
            rw (turns-turn t script s, bad)
              (
                heard,
                rest ++ arrivals script,
                rw split (append_assoc heard rest (arrivals script)),
                rw (put_back_order r.0) order,
                inl refl,
              )
      ]

  -- Whatever the network does, a message whose handler is never closed while the loop runs is neither lost
  -- nor duplicated nor overtaken: what was delivered and what is left in the buffer at the end are, in this
  -- order, the buffer at the start and then what the loop heard, which is a first part of what the callers
  -- sent, and all of it when no error ended the loop.
  pub keep_alive-in_order :
      (address : SocketAddr) (buffer : List InnerMessage) (script : List Turn)
      → All (StaysOpen live) script
      → let r = keep_alive address buffer script in
        (heard rest : List InnerMessage) × (arrivals script ≡ heard ++ rest)
        × (only live (in_order r.0) ≡ only live (buffer ++ heard))
        × ((is_some r.1 ≡ true) ⊎ (rest ≡ []))
  unfolding keep_alive
  keep_alive-in_order address buffer script h =
      turns_order script
        (record { address = address; buffer = buffer; pending_replies = []; delivered = [] }) h
