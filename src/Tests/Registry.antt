-- ===== src/Tests/Registry.antt =====
-- A registry with one allowed address, watching the messages of Tests/Announce.
use herrscher_transport.Prelude.{
  ℕ, suc, ◌≡◌, refl, ◌⊎◌, pos, true, false, none, some, List, [], ◌∷◌, ◌==◌, if◌then◌else◌, All,
  Any, nat_eq, put, arith, ℤ, String,
}
use herrscher_transport.Errors.{
  Error, ok, err, external, addr_refused, unusable_announcement, Result,
}
use herrscher_transport.Announce.{
  open_announcement, decode_strict, mac, mac_message, announce, handle_message,
}
use herrscher_transport.Announce.Decimal.{append_int}
use herrscher_transport.Announce.Time.{sub_abs}
use herrscher_transport.Registry.{
  RemoteRegistry, Directory, entry, allowed, observe, by_category, Watched, on_announcement, reject,
}
use herrscher_transport.Registry.Entries.{IsUsable, observe_iff, observe_errors}
use herrscher_transport.Registry.Watching.{
  Message, watch_message, watch_run, IsTrusted, watch_run-IsTrusted,
}
use herrscher_transport.Codec.{Bytes}
use herrscher_transport.Registry.Discovery.{announced_is_listed}
use herrscher_transport.Tests.Announce.{packages, secret, sealed, from, reads, sealed_lem}

abbrev pub directory : Directory ℕ ℕ
directory = record {
  category = λ m. if nat_eq m 7 then "memory" else "";
  category_memory = "memory";
  category_orchestrator = "orchestrator";
  category_backend = "backend";
  split_host_port = λ addr.
      if addr == "near:1" then ok ("near", "1") else err (external "missing port in address");
}

abbrev pub gated : RemoteRegistry ℕ
gated = record { entries = []; allow = some (λ addr. addr == "near:1") }

abbrev holding : RemoteRegistry ℕ
holding = record { entries = ("i", entry (from 7)) ∷ []; allow = gated.allow }

abbrev closed : RemoteRegistry ℕ
closed = record { entries = []; allow = none }

abbrev pub count : Error ℕ → ℕ → ℕ
count e n = suc n

abbrev pub arrived : List Message
arrived = (sealed, pos 1000) ∷ (3 ∷ [], pos 1001) ∷ []

-- The first message is recorded, the second rejected.
watched : watch_run packages directory (some secret) count arrived (gated, 0) ≡ (holding, 1)
unfolding watch_run watch_message open_announcement decode_strict mac mac_message append_int sub_abs
    observe put
watched = refl

watch_run-IsTrusted_example :
    All
      (IsTrusted packages directory (some secret) count gated.allow)
      (watch_run packages directory (some secret) count arrived (gated, 0)).0.entries
watch_run-IsTrusted_example =
    watch_run-IsTrusted packages directory (some secret) count gated.allow arrived gated 0 refl tt

observe_iff_example :
    IsUsable directory (entry (from 7))
    × (allowed gated.allow "near:1" ≡ true)
    × (holding ≡ record gated { entries = put gated.entries "i" (entry (from 7)) })
unfolding observe put
observe_iff_example = (observe_iff directory gated holding (from 7)).0 refl

observe_errors_example :
    ((◌≡◌ {A = Error ℕ} addr_refused unusable_announcement) × ¬ IsUsable directory (entry (from 7)))
    ⊎ ((◌≡◌ {A = Error ℕ} addr_refused addr_refused)
        × IsUsable directory (entry (from 7))
        × (allowed closed.allow "near:1" ≡ false))
unfolding observe
observe_errors_example = observe_errors directory closed (from 7) addr_refused refl

abbrev took : String → Bytes → Result ℕ (Unit {0})
took subject payload =
    if subject == "plugins.announce" then ok tt else err (external "no such subject")

abbrev installed : Bytes → ℤ → Watched ℕ ℕ → Watched ℕ ℕ
installed =
    handle_message packages (some secret) (on_announcement packages directory count)
      (reject packages directory count)

pub near-IsUsable : IsUsable directory (entry (from 7))
unfolding observe put
near-IsUsable = ((observe_iff directory gated holding (from 7)).0 refl).0

announced_is_listed_example :
    let after =
      watch_message packages directory (some secret) count (sealed, pos 1000) (gated, 0) in
    (announce packages took (some secret) (from 7) (pos 42) ≡ ok tt)
    × (after ≡ (record gated { entries = put gated.entries "i" (entry (from 7)) }, 0))
    × Any (λ e. e ≡ entry (from 7)) (by_category directory after.0 "memory")
announced_is_listed_example =
    announced_is_listed packages directory reads took (some secret) (from 7) (pos 42) (pos 1000)
      sealed count gated 0 sealed_lem refl (omega arith) (omega arith) near-IsUsable refl
