-- ===== src/Backend/EndToEnd.antt =====
-- backend_stream.go: a turn of the real backend as the proxy sees it, over a connection that may break.
use mathlib.Core.List.{foldl, append-nil}
use herrscher_transport.Prelude.{
  ℕ, ◌≤◌, ◌≡◌, refl, true, Option, none, some, List, [], ◌∷◌, ◌++◌, map, length, take, take_all,
  take-append_le, length-append, length-map, ltb, All, arith, if◌then◌else◌, sym, ◌∙◌, ap,
  Bool-cases, inl, inr, ◌==◌, take-map, All-take, subst,
}
use herrscher_transport.Errors.{Error, ok, remote}
use herrscher_transport.Codec.{Bytes, Wire}
use herrscher_transport.Plugin.{ResultEnvelope}
use herrscher_transport.Backend.{
  BackendFrame, BackendTypes, Turn, event_frame, done_frame, err_string, serve_turn,
}
use herrscher_transport.Backend.Proxy.{receive, receive_failure}
use herrscher_transport.Backend.Turns.{
  send_upto, event_envelope, done_envelope, all_frames, EncodesTurn, serve_turn_prefix,
}

module _ {B : Type 0} (W : Wire B) (T : BackendTypes B) (enc : BackendFrame T.Event → Bytes)
    {S : Type 0} (on_event : T.Event → S → S) where
  open W use {format}
  open T use {Event, frame_codec}

  -- The frame is unmarshalled from its encoding.
  abbrev pub IsDecoded : BackendFrame Event → Type 0
  IsDecoded f = frame_codec.unmarshal (enc f) ≡ ok f

  abbrev pub DecodesTurn : Turn B Event → Type 0
  DecodesTurn turn =
      All (λ event. IsDecoded (event_frame T event)) turn.events
      × IsDecoded (done_frame format T turn)

  -- The events in order, each handed to the hook.
  abbrev pub replay : List Event → S → S
  replay events s = foldl (λ s' event. on_event event s') s events

  -- The error of a turn as the proxy returns it: its text, if it has one.
  unfoldable pub turn_failure : Option (Error B) → Option (Error B)
  unfolding err_string
  turn_failure failure =
      if err_string format failure == "" then none else some (remote (err_string format failure))

  receive_events :
      (events : List Event) (frames : List ResultEnvelope) (ending : Error B) (s : S)
      → All (λ event. IsDecoded (event_frame T event)) events
      → receive W T (some on_event) (map (event_envelope T enc) events ++ frames) ending s
        ≡ receive W T (some on_event) frames ending (replay events s)
  unfolding receive
  receive_events [] frames ending s h = refl
  receive_events (event ∷ events) frames ending s (h, hs) =
      rw h (receive_events events frames ending (on_event event s) hs)

  receive_done :
      (turn : Turn B Event) (ending : Error B) (s : S)
      → IsDecoded (done_frame format T turn)
      → receive W T (some on_event) (done_envelope T enc format turn ∷ []) ending s
        ≡ ((turn.reply, turn_failure turn.failure), s)
  unfolding receive turn_failure
  receive_done turn ending s h = elim (Bool-cases (err_string format turn.failure == "")) [
    | inl silent ↦ rw (h, silent) refl
    | inr spoken ↦ rw (h, spoken) refl
  ]

  -- A turn that reaches the proxy whole.
  receive_all :
      (turn : Turn B Event) (ending : Error B) (s : S)
      → DecodesTurn turn
      → receive W T (some on_event) (all_frames T enc format turn) ending s
        ≡ ((turn.reply, turn_failure turn.failure), replay turn.events s)
  receive_all turn ending s (events, done) =
      receive_events turn.events (done_envelope T enc format turn ∷ []) ending s events
      ∙ receive_done turn ending (replay turn.events s) done

  -- A turn whose first `n` frames arrive, all of them events: the proxy has replayed them and fails.
  receive_cut :
      (n : ℕ) (turn : Turn B Event) (ending : Error B) (s : S)
      → DecodesTurn turn
      → n ≤ length turn.events
      → receive W T (some on_event) (take n (all_frames T enc format turn)) ending s
        ≡ (("", some (receive_failure ending)), replay (take n turn.events) s)
  unfolding receive
  receive_cut n turn ending s (events, done) short =
      let cut : take n (all_frames T enc format turn)
          ≡ map (event_envelope T enc) (take n turn.events) ++ [] =
        take-append_le n (map (event_envelope T enc) turn.events) _
          (omega (arith, length-map turn.events (event_envelope T enc)))
        ∙ take-map n (event_envelope T enc) turn.events
        ∙ sym (append-nil _) in
      subst
        (λ frames.
          receive W T (some on_event) frames ending s
          ≡ (("", some (receive_failure ending)), replay (take n turn.events) s))
        (sym cut)
        (receive_events (take n turn.events) [] ending s (All-take _ n turn.events events))

  fits :
      (capacity : ℕ) (turn : Turn B Event)
      → ltb (length turn.events) capacity ≡ true
      → length (all_frames T enc format turn) ≤ capacity
  fits capacity turn whole = ground (
    arith,
    length-map turn.events (event_envelope T enc),
    length-append (map (event_envelope T enc) turn.events) (done_envelope T enc format turn ∷ []),
  )

  -- A turn through the server, a connection that breaks after `capacity` frames, and the proxy's loop.
  -- If all frames went out, the proxy replays all events in order and returns the turn's reply and the
  -- text of its error. Otherwise it replays, in order, exactly the events that went out, and returns
  -- an error made from the end of the stream.
  pub turn_end_to_end :
      (capacity : ℕ) (broken ending : Error B) (turn : Turn B Event) (s : S)
      → EncodesTurn T enc format turn
      → DecodesTurn turn
      → receive W T (some on_event) (serve_turn W T (send_upto capacity broken) [] turn).1 ending s
        ≡ (if ltb (length turn.events) capacity
            then ((turn.reply, turn_failure turn.failure), replay turn.events s)
            else (("", some (receive_failure ending)), replay (take capacity turn.events) s))
  turn_end_to_end capacity broken ending turn s encodes decodes =
      rw (serve_turn_prefix W T enc capacity broken turn encodes).0
        (elim (Bool-cases (ltb (length turn.events) capacity)) [
          | inl whole ↦ rw whole (
              ap (λ frames. receive W T (some on_event) frames ending s)
                (take_all capacity (all_frames T enc format turn) (fits capacity turn whole))
              ∙ receive_all turn ending s decodes)
          | inr part ↦ rw part (receive_cut capacity turn ending s decodes (ground arith))
        ])
