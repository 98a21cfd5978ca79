-- ===== src/Backend/Turns.antt =====
-- backend_stream.go: what a turn puts on the stream, also when the connection breaks in the middle.
use native.Mathlib.Decide.{dec_lt}
use herrscher_transport.Errors.Format.{Format}
use mathlib.Core.List.{foldl, append_assoc, append-nil}
use herrscher_transport.Prelude.{
  ℕ, zero, suc, ◌+◌, ◌≤◌, ◌<◌, ◌≡◌, refl, true, false, none, some, List, [], ◌∷◌, ◌++◌, map, length,
  take, ltb, All, arith, if◌then◌else◌, length-append, sym, ◌∙◌, ap, subst, ◌||◌, ◌↔◌,
  take-append_le, take_all, length-map,
}
use herrscher_transport.Errors.{Error, ok, err, wrap}
use herrscher_transport.Codec.{Bytes, Wire}
use herrscher_transport.Exec.{Exec}
use herrscher_transport.Plugin.{ResultEnvelope}
use herrscher_transport.Backend.{
  BackendFrame, BackendTypes, Turn, Sending, event_frame, done_frame, frame_envelope, on_event,
  serve_turn, is_some, finish,
}

module _ {B N : Type 0} (W : Wire B) (T : BackendTypes B)
    (send : ResultEnvelope → Exec B N (Unit {0})) where
  open T use {Event}

  -- A stream that is closed or has failed stays as it is.
  abbrev IsOver : Sending B N → Type 0
  IsOver st = (st.closed || is_some st.send_err) ≡ true

  over_ignores :
      (st : Sending B N) (events : List Event)
      → IsOver st
      → foldl (on_event W T send) st events ≡ st
  unfolding on_event
  over_ignores st [] h = refl
  over_ignores st (event ∷ events) h =
      subst (λ x. foldl (on_event W T send) x events ≡ st) (sym (ground arith))
        (over_ignores st events h)

  before : N → Turn B Event → Sending B N
  before n turn =
      foldl (on_event W T send) (record { send_err = none; closed = false; stream = n }) turn.events

  serve_turn-before :
      (n : N) (turn : Turn B Event)
      → serve_turn W T send n turn ≡ finish W T send turn (record (before n turn) { closed = true })
  unfolding serve_turn before
  serve_turn-before n turn = ap (finish W T send turn) (over_ignores _ turn.late_events refl)

-- A connection that takes `capacity` frames and then breaks; the stream is what it took.
abbrev pub send_upto :
    {B : Type 0} → ℕ → Error B → ResultEnvelope → Exec B (List ResultEnvelope) (Unit {0})
send_upto capacity e frame sent =
    if ltb (length sent) capacity then (ok tt, sent ++ frame ∷ []) else (err e, sent)

module _ {B : Type 0} (T : BackendTypes B) (enc : BackendFrame T.Event → Bytes) where
  open T use {Event, frame_codec}

  abbrev pub event_envelope : Event → ResultEnvelope
  event_envelope event = frame_envelope (enc (event_frame T event))

  abbrev pub done_envelope : Format B → Turn B Event → ResultEnvelope
  done_envelope F turn = frame_envelope (enc (done_frame F T turn))

  -- The frames of a turn that goes through: one for each event, and the terminal one.
  abbrev pub all_frames : Format B → Turn B Event → List ResultEnvelope
  all_frames F turn = map event_envelope turn.events ++ done_envelope F turn ∷ []

  -- The frame is marshalled to its encoding.
  abbrev pub IsEncoded : BackendFrame Event → Type 0
  IsEncoded f = frame_codec.marshal f ≡ ok (enc f)

  abbrev pub EncodesTurn : Format B → Turn B Event → Type 0
  EncodesTurn F turn =
      All (λ event. IsEncoded (event_frame T event)) turn.events × IsEncoded (done_frame F T turn)

module _ {B : Type 0} (W : Wire B) (T : BackendTypes B) (enc : BackendFrame T.Event → Bytes)
    (capacity : ℕ) (broken : Error B) where
  open W use {format}
  open T use {Event, frame_codec}

  abbrev send : ResultEnvelope → Exec B (List ResultEnvelope) (Unit {0})
  send = send_upto capacity broken

  abbrev going : List ResultEnvelope → Sending B (List ResultEnvelope)
  going sent = record { send_err = none; closed = false; stream = sent }

  abbrev failed : List ResultEnvelope → Sending B (List ResultEnvelope)
  failed sent = record { send_err = some broken; closed = false; stream = sent }

  event_taken :
      (sent : List ResultEnvelope) (event : Event)
      → IsEncoded T enc (event_frame T event)
      → length sent < capacity
      → on_event W T send (going sent) event ≡ going (sent ++ event_envelope T enc event ∷ [])
  unfolding on_event
  event_taken sent event h room = rw h (ground arith)

  event_refused :
      (sent : List ResultEnvelope) (event : Event)
      → IsEncoded T enc (event_frame T event)
      → capacity ≤ length sent
      → on_event W T send (going sent) event ≡ failed sent
  unfolding on_event
  event_refused sent event h full = rw h (ground arith)

  length-snoc :
      (sent : List ResultEnvelope) (f : ResultEnvelope)
      → length (sent ++ f ∷ []) ≡ suc (length sent)
  length-snoc sent f = omega (arith, length-append {0} sent (f ∷ []))

  -- While there is room every event goes out.
  events_sent :
      (sent : List ResultEnvelope) (events : List Event)
      → All (λ event. IsEncoded T enc (event_frame T event)) events
      → length sent + length events ≤ capacity
      → foldl (on_event W T send) (going sent) events
        ≡ going (sent ++ map (event_envelope T enc) events)
  events_sent sent [] h fits = ap going (sym (append-nil sent))
  events_sent sent (event ∷ events) (h, hs) fits = rw (event_taken sent event h (omega arith)) (
      events_sent (sent ++ event_envelope T enc event ∷ []) events hs
        (omega (arith, length-snoc sent (event_envelope T enc event)))
      ∙ ap going
          (append_assoc sent (event_envelope T enc event ∷ []) (map (event_envelope T enc) events)))

  -- Otherwise the first `room` of them go out, and the error is kept.
  events_broken :
      (room : ℕ) (sent : List ResultEnvelope) (events : List Event)
      → All (λ event. IsEncoded T enc (event_frame T event)) events
      → length sent + room ≡ capacity
      → room < length events
      → foldl (on_event W T send) (going sent) events
        ≡ failed (sent ++ take room (map (event_envelope T enc) events))
  events_broken room sent [] h full over = absurd (omega arith)
  events_broken zero sent (event ∷ events) (h, hs) full over =
      rw (event_refused sent event h (omega arith))
        (over_ignores W T send (failed sent) events refl ∙ ap failed (sym (append-nil sent)))
  events_broken (suc room) sent (event ∷ events) (h, hs) full over =
      rw (event_taken sent event h (omega arith)) (
        events_broken room (sent ++ event_envelope T enc event ∷ []) events hs
          (omega (arith, length-snoc sent (event_envelope T enc event))) (omega arith)
        ∙ ap failed (
            append_assoc sent (event_envelope T enc event ∷ [])
              (take room (map (event_envelope T enc) events))))

  run_sent :
      (turn : Turn B Event)
      → EncodesTurn T enc format turn
      → length turn.events ≤ capacity
      → serve_turn W T send [] turn
        ≡ finish W T send turn
            (record (going (map (event_envelope T enc) turn.events)) { closed = true })
  unfolding before
  run_sent turn (events, done) fits =
      serve_turn-before W T send [] turn
      ∙ ap
          (λ (st : Sending B (List ResultEnvelope)).
            finish W T send turn (record st { closed = true }))
          (events_sent [] turn.events events (omega arith))

  run_broken :
      (turn : Turn B Event)
      → EncodesTurn T enc format turn
      → capacity < length turn.events
      → serve_turn W T send [] turn ≡ (
        err (wrap "transport: backend event stream" broken),
        take capacity (map (event_envelope T enc) turn.events),
      )
  unfolding before finish
  run_broken turn (events, done) over =
      serve_turn-before W T send [] turn
      ∙ ap
          (λ (st : Sending B (List ResultEnvelope)).
            finish W T send turn (record st { closed = true }))
          (events_broken capacity [] turn.events events (omega arith) over)

  serve_taken :
      (turn : Turn B Event)
      → EncodesTurn T enc format turn
      → length turn.events < capacity
      → serve_turn W T send [] turn ≡ (ok tt, all_frames T enc format turn)
  unfolding finish
  serve_taken turn (events, done) room =
      run_sent turn (events, done) (omega arith)
      ∙ rw done (ground (arith, length-map turn.events (event_envelope T enc)))

  serve_last :
      (turn : Turn B Event)
      → EncodesTurn T enc format turn
      → length turn.events ≡ capacity
      → serve_turn W T send [] turn ≡ (
        err (wrap "transport: send backend reply" broken),
        map (event_envelope T enc) turn.events,
      )
  unfolding finish
  serve_last turn (events, done) full =
      run_sent turn (events, done) (omega arith)
      ∙ rw done (ground (arith, length-map turn.events (event_envelope T enc)))

  -- If the frames of a turn are marshalled, then on a connection that breaks after `capacity` frames
  -- the peer gets the first `capacity` frames of the turn, its events in order and then the terminal
  -- frame; and the call succeeds exactly when all of them went out.
  pub serve_turn_prefix :
      (turn : Turn B Event)
      → EncodesTurn T enc format turn
      → ((serve_turn W T (send_upto capacity broken) [] turn).1
          ≡ take capacity (all_frames T enc format turn))
        × (((serve_turn W T (send_upto capacity broken) [] turn).0 ≡ ok tt)
            ↔ (length turn.events < capacity))
  serve_turn_prefix turn h = elim (dec_lt (length turn.events) capacity) [
    | yes room ↦ rw (serve_taken turn h room) (
      sym (take_all capacity (all_frames T enc format turn) (omega (arith, frames_length))),
      ((λ e. room), (λ r. refl)),
    )
    | no full ↦ elim (dec_lt capacity (length turn.events)) [
      | yes over ↦ rw (run_broken turn h over) (
        sym (
            take-append_le capacity (map (event_envelope T enc) turn.events) _
              (omega (arith, events_length))),
        ((λ e. cc), (λ r. absurd (full r))),
      )
      | no under ↦ rw (serve_last turn h (omega arith)) (
        sym (
            take-append_le capacity (map (event_envelope T enc) turn.events) _
              (omega (arith, events_length))
            ∙ take_all capacity _ (omega (arith, events_length))),
        ((λ e. cc), (λ r. absurd (full r))),
      )
    ]
  ]
    where
      events_length : length (map (event_envelope T enc) turn.events) ≡ length turn.events
      events_length = length-map turn.events (event_envelope T enc)

      frames_length : length (all_frames T enc format turn) ≡ length turn.events + 1
      frames_length = omega (
        arith,
        events_length,
        length-append {0} (map (event_envelope T enc) turn.events)
            (done_envelope T enc format turn ∷ []),
      )
