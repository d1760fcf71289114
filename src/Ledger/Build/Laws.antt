-- ===== src/Ledger/Build/Laws.antt =====
-- The lines of the connections are shared out among the flows, and no flow begins after it ends.

use zcc_analysis.Common.{total, ℕ, ◌+◌, ◌≤◌, ◌≡◌, List, [], ◌∷◌, length, Str, str_eq}
use zcc_analysis.Common.Groups.{Groups, lookup}
use zcc_analysis.Ledger.Closes.{Close}
use zcc_analysis.Ledger.Store.{Address, Store, Mention, address_eq}
use zcc_analysis.Ledger.Build.{Flow, Ledger, Assigned, address_of}
use zcc_analysis.Ledger.Build.Distinct.{times}

-- The lines assigned to the records.
abbrev pub shared : Groups Address Mention → List Close → ℕ
shared assigned raw = total (λ r. length (lookup address_eq assigned (address_of r))) raw

-- The first close that is left is at or after the line.
abbrev IsReached : ℕ → List Close → Type 0
IsReached ts [] = Unit
IsReached ts (c ∷ closes) = ts ≤ c.ts

-- What is assigned and what is counted after the last closes.
abbrev accounted : List Close → Assigned → ℕ
accounted raw a = shared a.assigned raw + a.after_last

module _ (raw : List Close) where
  abbrev IsOnce : Close → Type 0
  IsOnce c = times (address_of c) raw ≡ 1

  -- The lines of the connections.
  abbrev pub connected : Groups Str Mention → Groups Str Close → ℕ
  connected lifetimes closes_by_id = total (λ e. length (lookup str_eq lifetimes e.0)) closes_by_id

-- A flow does not begin after its end.
abbrev pub IsOrdered : Flow → Type 0
IsOrdered f = f.first_ts ≤ f.last_ts
