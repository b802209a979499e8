-- ===== src/Store/History.antt =====
-- crates/eggwork-server/src/store.rs: the methods that write, as steps of the tables. Each takes
-- the connection's mutex for its whole transaction, so a history is a sequence of such steps; a
-- method that fails leaves the tables as they were, since its transaction is dropped.
pub mod Updates
pub mod Reachable
pub mod Ended
pub mod Coherent
pub mod Restart
pub mod Later
pub mod Repeated
use eggwork.Prelude.{ℕ, ◌≡◌, List, [], Option, ok}
use eggwork.Prelude.Bytes.{Bytes}
use eggwork.Core.Execution.{ExecutionSnapshot, EventKind, ExecutionEvent}
use eggwork.Store.Tables.{Json, Db}
use eggwork.Store.Journal.{commit_event, recover}
use eggwork.Store.Reserve.{ReserveResult, Admission, reserve}
use eggwork.Store.Leases.{Renewal, update_lease}
use eggwork.Store.Metrics.{increment_metrics}

module _ (js : Json) where
  open js use {Encoded}

  -- A method that returns while the server runs.
  pub data Step : Db Encoded → Db Encoded → Type 0 where
    reserving :
        {db db' : Db Encoded} (s : ExecutionSnapshot) (a : Admission) (now : ℕ) (o : ReserveResult)
        → reserve js s a now db ≡ ok (o, db')
        → Step db db'
    committing :
        {db db' : Db Encoded} (s : ExecutionSnapshot) (kind : EventKind) (now : ℕ)
        (o : Option ExecutionEvent)
        → commit_event js s kind now db ≡ ok (o, db')
        → Step db db'
    renewing :
        {db db' : Db Encoded} (id : Bytes) (g : ℕ) (v : Renewal) (now updated : ℕ) (o : Option ℕ)
        → update_lease id g v now updated db ≡ ok (o, db')
        → Step db db'
    counting :
        {db db' : Db Encoded} (deltas : List (Bytes × ℕ))
        → increment_metrics deltas db ≡ ok db'
        → Step db db'

  -- What one run of the server does to the tables after its start.
  pub data Steps : Db Encoded → Db Encoded → Type 0 where
    done : {db : Db Encoded} → Steps db db
    next : {db db' db'' : Db Encoded} → Step db db' → Steps db' db'' → Steps db db''

  -- The tables of a new database.
  abbrev pub empty_db : Db Encoded
  empty_db = record { executions = []; events = []; node_metrics = [] }

  -- What runs of the server with restarts between them, at any point, make of a new database.
  pub data Reached : Db Encoded → Type 0 where
    created : Reached empty_db
    stepped : {db db' : Db Encoded} → Reached db → Step db db' → Reached db'
    restarted :
        {db db' : Db Encoded} (now : ℕ) (out : List ExecutionSnapshot)
        → Reached db
        → recover js now db ≡ ok (out, db')
        → Reached db'
