-- ===== src/Store/Tests/Restarts.antt =====
-- The theorem on restarts at work, with an encoding that takes every event.
use eggwork.Prelude.{◌≡◌, refl, sym, ap, false, List, some, ok, All}
use eggwork.Core.Execution.{ExecutionState, ExecutionSnapshot}
use eggwork.Store.Tables.{Json, Db, is_active_name}
use eggwork.Store.Journal.{recover}
use eggwork.Store.Reserve.{ReserveResult, reserve}
use eggwork.Store.History.{Reached, created, stepped, reserving}
use eggwork.Store.History.Coherent.{ReadsBack}
use eggwork.Store.History.Restart.{Writes, recover-returns}
use eggwork.Store.Tests.{
  Encoded, an_event, snapshot_of, plain, new_db, accepted_job, admission, admitted, some_injective,
}

abbrev every : Json
every = record plain { event_to_vec = λ v. some (an_event v) }

admit_in_every :
    reserve every accepted_job admission 100 new_db ≡ ok (ReserveResult.created, admitted)
unfolding reserve eggwork.Store.Tables.find_row eggwork.Store.Tables.latest
    eggwork.Store.Tables.state_name
admit_in_every = refl

every-Reached : Reached every admitted
every-Reached =
    stepped created (reserving accepted_job admission 100 ReserveResult.created admit_in_every)

every-ReadsBack : ReadsBack every
every-ReadsBack s e h = ap snapshot_of (some_injective (sym h))

every-Writes : Writes every
every-Writes = (λ s. (_, refl), λ v. (an_event v, refl))

recover-returns_example :
    (out : List ExecutionSnapshot) × (db' : Db Encoded) × (recover every 200 admitted
      ≡ ok (out, db'))
    × All (λ r. is_active_name r.state ≡ false) db'.executions
    × All (λ s. s.state ≡ ExecutionState.interrupted) out
recover-returns_example =
    recover-returns every 200 admitted every-ReadsBack every-Writes every-Reached
