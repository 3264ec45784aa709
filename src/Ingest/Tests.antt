-- ===== src/Ingest/Tests.antt =====
-- Status events at concrete inputs.
mod Drain
use mathlib.Core.List.{Permᴰ}
use whatsvault.Base.{◌≡◌, refl, none, some, [], ◌∷◌}
use whatsvault.Base.Eq.{string_eq}
use whatsvault.Base.Int.{pos}
use whatsvault.Ingest.Status.{Event, reduce_event, reduce_status}
use whatsvault.Ingest.Status.Order.{Same, reduce_status-Same}

abbrev delivered : Event
delivered = record { status = "delivered"; provider_ts_ms = pos 2000 }

abbrev failed : Event
failed = record { status = "failed"; provider_ts_ms = pos 3000 }

abbrev warned : Event
warned = record { status = "warning"; provider_ts_ms = pos 1000 }

reduce_status-late :
    reduce_status (failed ∷ warned ∷ delivered ∷ record failed { provider_ts_ms = pos 2500 } ∷ [])
    ≡ record {
      delivery_rank = 2;
      failed_at_ms = some (pos 2500);
      deleted_at_ms = none;
      unknown_statuses = "warning" ∷ [];
    }
unfolding reduce_status reduce_event string_eq
reduce_status-late = refl

reduce_status-Same_example :
    Same
      (reduce_status (delivered ∷ failed ∷ warned ∷ []))
      (reduce_status (failed ∷ delivered ∷ warned ∷ []))
reduce_status-Same_example =
    reduce_status-Same (delivered ∷ failed ∷ warned ∷ []) (failed ∷ delivered ∷ warned ∷ [])
      (Permᴰ.swap refl refl)
