-- ===== src/Backend/Interleaved.antt =====
-- backend_stream.go, respond: goroutines of the backend call onEvent while respond ends the turn, in any
-- order of their critical sections and of its own.
use mathlib.Core.List.{foldl, foldl-append}
use herrscher_transport.Prelude.{
  ◌≡◌, refl, sym, ◌∙◌, ap, subst, true, false, Option, none, List, [], ◌∷◌, ◌++◌,
}
use herrscher_transport.Errors.{Error, Result}
use herrscher_transport.Codec.{Wire}
use herrscher_transport.Exec.{Exec}
use herrscher_transport.Plugin.{ResultEnvelope}
use herrscher_transport.Backend.{
  BackendTypes, Turn, Sending, on_event, finish, run_turn, serve_turn,
}

-- Where respond is: the real Respond runs or has just returned, or `closed` is set and streamErr is read,
-- or the outcome is known, by that error or by the attempt to send the terminal frame.
pub data Phase (B : Type 0) : Type 0 where
  responding : Phase B
  closing : (stream_err : Option (Error B)) → Phase B
  ended : (outcome : Result B (Unit {0})) → Phase B

-- The turn with these events and none after them.
abbrev pub sequential : {B Event : Type 0} → Turn B Event → List Event → Turn B Event
sequential turn events = record turn { events = events; late_events = [] }

module _ {B N : Type 0} (W : Wire B) (T : BackendTypes B)
    (send : ResultEnvelope → Exec B N (Unit {0})) (turn : Turn B T.Event) (n : N) where
  open T use {Event}

  -- The states that respond and the calls of onEvent reach from an open stream. The list has the events
  -- whose calls took the lock before respond took it to set `closed`.
  pub data Reaches : List Event → Phase B → Sending B N → Type 0 where
    opened : Reaches [] responding (record { send_err = none; closed = false; stream = n })
    emitted :
        {events : List Event} {st : Sending B N} (event : Event)
        → Reaches events responding st
        → Reaches (events ++ event ∷ []) responding (on_event W T send st event)
    closed :
        {events : List Event} {st : Sending B N}
        → Reaches events responding st
        → Reaches events (closing st.send_err) (record st { closed = true })
    emitted_closing :
        {events : List Event} {e : Option (Error B)} {st : Sending B N} (event : Event)
        → Reaches events (closing e) st
        → Reaches events (closing e) (on_event W T send st event)
    replied :
        {events : List Event} {e : Option (Error B)} {st : Sending B N}
        → Reaches events (closing e) st
        → Reaches events
            (ended (finish W T send turn (record st { send_err = e })).0)
            (record st { stream = (finish W T send turn (record st { send_err = e })).1 })
    emitted_ended :
        {events : List Event} {outcome : Result B (Unit {0})} {st : Sending B N} (event : Event)
        → Reaches events (ended outcome) st
        → Reaches events (ended outcome) (on_event W T send st event)

  -- What holds of the reached state.
  abbrev Follows : List Event → Phase B → Sending B N → Type 0
  Follows events responding st =
      foldl (on_event W T send) (record { send_err = none; closed = false; stream = n }) events ≡ st
  Follows events (closing e) st =
      (run_turn W T send n (sequential turn events) ≡ st) × (st.closed ≡ true) × (e ≡ st.send_err)
  Follows events (ended outcome) st =
      (st.closed ≡ true) × (serve_turn W T send n (sequential turn events) ≡ (outcome, st.stream))

  -- A closed stream ignores an event.
  closed_ignores :
      (st : Sending B N) (event : Event) → st.closed ≡ true → on_event W T send st event ≡ st
  unfolding on_event
  closed_ignores st event h = rw h refl

  Reaches-Follows :
      {events : List Event} {phase : Phase B} {st : Sending B N}
      → Reaches events phase st
      → Follows events phase st
  unfolding run_turn serve_turn
  Reaches-Follows opened = refl
  Reaches-Follows (emitted {events} {st} event r) =
      foldl-append (on_event W T send) _ events (event ∷ [])
      ∙ ap (λ s. on_event W T send s event) (Reaches-Follows r)
  Reaches-Follows (closed {events} {st} r) =
      (ap (λ (s : Sending B N). record s { closed = true }) (Reaches-Follows r), refl, refl)
  Reaches-Follows (emitted_closing {events} {e} {st} event r) =
      let (runs, is_closed, same) = Reaches-Follows r in
      subst (Follows events (closing e)) (sym (closed_ignores st event is_closed))
        (runs, is_closed, same)
  Reaches-Follows (replied {events} {e} {st} r) =
      let (runs, is_closed, same) = Reaches-Follows r in
      (
        is_closed,
        ap (finish W T send turn) (
            runs
            ∙ ap {B = Sending B N} (λ (x : Option (Error B)). record st { send_err = x })
                (sym same)),
      )
  Reaches-Follows (emitted_ended {events} {outcome} {st} event r) =
      let (is_closed, served) = Reaches-Follows r in
      subst (Follows events (ended outcome)) (sym (closed_ignores st event is_closed))
        (is_closed, served)

  -- In whatever order the calls of onEvent interleave with the end of the turn: the outcome and the stream
  -- are those of the turn that emits, one after the other, the events whose calls took the lock before
  -- respond set `closed`, whether the real Respond had returned or not, and no others. An event whose
  -- call takes the lock later reaches nobody, before the terminal frame or behind it.
  pub interleaved-serve_turn :
      {events : List Event} {outcome : Result B (Unit {0})} {st : Sending B N}
      → Reaches events (ended outcome) st
      → serve_turn W T send n (sequential turn events) ≡ (outcome, st.stream)
  interleaved-serve_turn r = (Reaches-Follows r).1
