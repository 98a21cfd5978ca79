-- ===== src/Tests/Latest.antt =====
-- The registry of Tests/Registry over a longer history.
use herrscher_transport.Prelude.{ℕ, ◌≡◌, refl, ◌↔◌, ◌⊎◌, inl, pos, some, [], ◌∷◌, All, Any, get}
use herrscher_transport.Announce.{open_announcement, decode_strict, mac, mac_message}
use herrscher_transport.Announce.Decimal.{append_int}
use herrscher_transport.Announce.Time.{sub_abs}
use herrscher_transport.Registry.{RemoteEntry, RemoteRegistry, entry, by_category}
use herrscher_transport.Registry.Watching.{watch_run}
use herrscher_transport.Registry.Latest.{IsSilent, IsNewest, watch_run-IsNewest}
use herrscher_transport.Registry.Lasting.{IsAnnouncer, announced_stays_listed}
use herrscher_transport.Tests.Announce.{packages, secret, sealed, from}
use herrscher_transport.Tests.Registry.{directory, gated, count, arrived, near-IsUsable}

-- What was registered for the instance before the watch.
abbrev old : RemoteEntry ℕ
old = record { manifest = 7; grpc_addr = "near:1"; instance_id = "j" }

abbrev stale : RemoteRegistry ℕ
stale = record { entries = ("i", old) ∷ ("j", old) ∷ []; allow = gated.allow }

announced : IsAnnouncer packages directory (some secret) gated.allow "i" (sealed, pos 1000)
unfolding open_announcement decode_strict mac mac_message append_int sub_abs
announced = (entry (from 7), (from 7, refl, near-IsUsable, refl, refl, refl))

watch_run-IsNewest_example :
    (get (watch_run packages directory (some secret) count arrived (stale, 0)).0.entries "i"
      ≡ some (entry (from 7)))
    ↔ (IsNewest packages directory (some secret) gated.allow "i" (entry (from 7)) arrived
        ⊎ (All (IsSilent packages directory (some secret) gated.allow "i") arrived
            × (get stale.entries "i" ≡ some (entry (from 7)))))
watch_run-IsNewest_example =
    watch_run-IsNewest packages directory (some secret) gated.allow count "i" (entry (from 7))
      arrived (stale, 0) refl

announced_stays_listed_example :
    (e : RemoteEntry ℕ) × IsNewest packages directory (some secret) gated.allow "i" e arrived
    × Any
        (λ x. x ≡ e)
        (by_category directory
          (watch_run packages directory (some secret) count arrived (stale, 0)).0
          (directory.category e.manifest))
announced_stays_listed_example =
    announced_stays_listed packages directory (some secret) gated.allow count "i" arrived (stale, 0)
      refl (inl announced)
