-- ===== src/Subjects.antt =====
-- subjects.go: the NATS subjects.
use text.Mathlib.TextLemmas.{append_cancel_left, append_cancel_right, append_inj}
use herrscher_transport.Prelude.{◌≡◌, refl, ◌≢◌, ◌↔◌, String, ◌⧺◌, ap, false, true, eq_iff}

-- SubjectAnnounce
abbrev pub subject_announce : String
subject_announce = "plugins.announce"

-- SessionEvents
unfoldable pub session_events : String → String
session_events session = "session." ⧺ session ⧺ ".events"

false-ne-true : false ≢ true
false-ne-true h = cc

heads_apart : ◌≢◌ {A = String} "session." "plugins."
heads_apart same = false-ne-true ((eq_iff "session." "plugins.").1 same)

-- Each session has its own subject of events, and none of these is the subject of the announcements.
pub session_events_apart :
    (session other : String)
    → ((session_events session ≡ session_events other) ↔ (session ≡ other))
      × (session_events session ≢ subject_announce)
unfolding session_events
session_events_apart session other = (
  (
    (λ same. append_cancel_right session other ".events" (append_cancel_left "session." _ _ same)),
    ap (λ s. "session." ⧺ s ⧺ ".events"),
  ),
  (λ same.
      heads_apart
        (append_inj {s₁ = "session."} {s₂ = "plugins."} {t₁ = session ⧺ ".events"} {t₂ = "announce"}
          same refl).0),
)
