-- ===== src/Packet/Endpoints.antt =====
-- `_server_side_endpoint` and `_bump_endpoint`: whom a packet is attributed to, and its row of counts.
pub mod Laws
use zcc_analysis.Common.{
  ℕ, suc, ◌+◌, Bool, true, false, ◌||◌, ◌&&◌, Option, none, some, List, [], ◌∷◌,
}
use zcc_analysis.Common.{Str, str_eq, ltb, leb, ◌==◌, if◌then◌else◌}
use zcc_analysis.Common.Order.{str_le}

-- One side of a connection.
pub record Side : Type 0 where
  pub ip : Str
  pub port : ℕ

-- `(a.ip, a.port) <= (b.ip, b.port)`
unfoldable pub side_le : Side → Side → Bool
unfolding str_le str_eq
side_le a b = if str_eq a.ip b.ip then leb a.port b.port else str_le a.ip b.ip

-- The side whose `ip:proto/port` is returned.
unfoldable pub server_side : Side → Side → Side
server_side src dst =
    if src.port == dst.port
    then (if side_le src dst then src else dst)
    else if ltb src.port dst.port
    then src
    else dst

-- A row of the endpoint table, by `ENDPOINT_STAT_KEYS`.
pub record Row : Type 0 where
  pub packets : ℕ
  pub bytes : ℕ
  pub tx_packets : ℕ
  pub tx_bytes : ℕ
  pub rx_packets : ℕ
  pub rx_bytes : ℕ

abbrev pub zero_row : Row
zero_row = record {
  packets = 0;
  bytes = 0;
  tx_packets = 0;
  tx_bytes = 0;
  rx_packets = 0;
  rx_bytes = 0;
}

unfoldable pub bump_row : Bool → ℕ → Row → Row
bump_row sent size row =
    if sent
    then record row {
      packets = row.packets + 1;
      bytes = row.bytes + size;
      tx_packets = row.tx_packets + 1;
      tx_bytes = row.tx_bytes + size;
    }
    else record row {
      packets = row.packets + 1;
      bytes = row.bytes + size;
      rx_packets = row.rx_packets + 1;
      rx_bytes = row.rx_bytes + size;
    }

-- The table is a dict in insertion order.
abbrev pub Table : Type 0
Table = List (Str × Row)

unfoldable pub bump : Table → Str → Bool → ℕ → Table
unfolding bump_row str_eq
bump [] key sent size = (key, bump_row sent size zero_row) ∷ []
bump ((k, row) ∷ t) key sent size =
    let rest = bump t key sent size in
    if str_eq k key then (k, bump_row sent size row) ∷ t else (k, row) ∷ rest

-- A packet, counted once at its source and once at its destination.
unfoldable pub count_packet : Table → Str → Str → ℕ → Table
unfolding bump
count_packet t src dst size = bump (bump t src true size) dst false size
