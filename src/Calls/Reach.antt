-- ===== src/Calls/Reach.antt =====
-- What holds of every store that the machine reaches.
use http_harness.Store.Rows.{Db}
use http_harness.Store.Step.{Step, Step-refl, Step-trans}
use http_harness.Calls.{Reaches, perform}
use http_harness.Calls.Steps.{perform-Step}

pub Reaches-Step : {db db' : Db} → Reaches db db' → Step db db'
Reaches-Step {db} Reaches.here = Step-refl db
Reaches-Step {db} (Reaches.after {db' = mid} r call) =
    Step-trans db mid (perform call mid) (Reaches-Step r) (perform-Step call mid)
