-- ===== src/Ledger/Running.antt =====
-- `running_counter_report`: the lines with bytes that the ledger leaves out.

use zcc_analysis.Common.{String, ℕ, ◌+◌, Bool, List, [], ◌∷◌, map, length, keep, Str, codes, total}
use zcc_analysis.Viewer.Index.{Line}
use zcc_analysis.Ledger.Store.{Store}

pub record Running : Type 0 where
  pub tag_records : ℕ
  pub tag_sum : ℕ
  pub keepalive_records : ℕ
  pub keepalive_sum : ℕ

-- `like` is SQLite's; `tag_bytes` and `keepalive_bytes` are the numbers that the two patterns find in a text.
module _ (like : Str → Str → Bool) (tag_bytes keepalive_bytes : Str → List ℕ) where
  -- The bodies that one statement selects.
  abbrev pub bodies_like : Store → String → List Str
  bodies_like store pattern =
      map (λ (ln : Line). ln.body) (keep (λ (ln : Line). like (codes pattern) ln.body) store.lines)

  -- Records and their sum, over some bodies.
  unfoldable pub count_bytes : (Str → List ℕ) → List Str → ℕ × ℕ → ℕ × ℕ
  count_bytes find [] n = n
  count_bytes find (body ∷ bodies) n =
      count_bytes find bodies (n.0 + length (find body), n.1 + total (λ b. b) (find body))

  unfoldable pub running_counter_report : Store → Running
  unfolding count_bytes
  running_counter_report store =
      let written = count_bytes tag_bytes (bodies_like store "%written bytes%") (0, 0) in
      let tag = count_bytes tag_bytes (bodies_like store "%rxBytes%") written in
      let keepalive = count_bytes keepalive_bytes (bodies_like store "%sendKeepAlive%") (0, 0) in
      record {
        tag_records = tag.0;
        tag_sum = tag.1;
        keepalive_records = keepalive.0;
        keepalive_sum = keepalive.1;
      }
