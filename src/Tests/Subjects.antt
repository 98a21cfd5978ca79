-- ===== src/Tests/Subjects.antt =====
-- The subjects of two sessions, and the mask of a key.
use herrscher_transport.Prelude.{◌≡◌, refl, some}
use herrscher_transport.Subjects.{session_events}
use herrscher_transport.Announce.{key_string, key_go_string, key_log_value}
use herrscher_transport.Tests.Announce.{secret}

events_of_a : session_events "a" ≡ "session.a.events"
unfolding session_events
events_of_a = refl

masked :
    (key_string (some secret) ≡ "transport.AnnounceKey(redacted)")
    × (key_go_string (some secret) ≡ key_string (some secret))
    × (key_log_value (λ s. s) (some secret) ≡ key_string (some secret))
masked = (refl, refl, refl)
