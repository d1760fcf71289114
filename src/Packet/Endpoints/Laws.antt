-- ===== src/Packet/Endpoints/Laws.antt =====
-- A connection has one server side whichever way a packet goes, and the table's counts balance.
use zcc_analysis.Common.{
  ℕ, ◌+◌, ◌≡◌, refl, arith, Bool, true, false, [], ◌∷◌, Str, str_eq, str_eq_iff, All, if◌then◌else◌,
}
use zcc_analysis.Common.Order.{str_le_total, str_le_antisymm}
use zcc_analysis.Packet.Endpoints.{
  Side, side_le, server_side, Row, zero_row, bump_row, Table, bump, count_packet,
}

-- The server side of a connection is the same for the packets of both directions.
pub server_side_symm : (a b : Side) → server_side a b ≡ server_side b a
unfolding server_side side_le
server_side_symm a b = ground (
  arith,
  str_le_total a.ip b.ip,
  str_le_antisymm a.ip b.ip,
  str_eq_iff a.ip b.ip,
  str_eq_iff b.ip a.ip,
)

-- A row's packets and bytes are those sent and those received.
abbrev pub IsBalancedRow : Row → Type 0
IsBalancedRow row =
    (row.packets ≡ row.tx_packets + row.rx_packets) × (row.bytes ≡ row.tx_bytes + row.rx_bytes)

abbrev pub IsBalanced : Table → Type 0
IsBalanced = All (λ (e : Str × Row). IsBalancedRow e.1)

bump_row-IsBalanced :
    (sent : Bool) (size : ℕ) (row : Row)
    → IsBalancedRow row
    → IsBalancedRow (bump_row sent size row)
unfolding bump_row
bump_row-IsBalanced true size row h = (omega (arith, h.0), omega (arith, h.1))
bump_row-IsBalanced false size row h = (omega (arith, h.0), omega (arith, h.1))

bump-IsBalanced :
    (t : Table) (key : Str) (sent : Bool) (size : ℕ)
    → IsBalanced t
    → IsBalanced (bump t key sent size)
unfolding bump
bump-IsBalanced [] key sent size h = (bump_row-IsBalanced sent size zero_row (refl, refl), tt)
bump-IsBalanced ((k, row) ∷ t) key sent size h =
    elim (str_eq k key)
      as (λ b.
        IsBalanced
          (if b then (k, bump_row sent size row) ∷ t else (k, row) ∷ bump t key sent size)) [
            | true ↦ (bump_row-IsBalanced sent size row h.0, h.1)
            | false ↦ (h.0, bump-IsBalanced t key sent size h.1)
          ]

-- A counter, over all rows.
abbrev pub total : (Row → ℕ) → Table → ℕ
total f [] = 0
total f ((k, row) ∷ t) = f row + total f t

total-bump :
    (f : Row → ℕ) (t : Table) (key : Str) (sent : Bool) (size gain : ℕ)
    → f zero_row ≡ 0
    → ((row : Row) → f (bump_row sent size row) ≡ f row + gain)
    → total f (bump t key sent size) ≡ total f t + gain
unfolding bump
total-bump f [] key sent size gain z g = omega (arith, z, g zero_row)
total-bump f ((k, row) ∷ t) key sent size gain z g =
    elim (str_eq k key)
      as (λ b.
        total f (if b then (k, bump_row sent size row) ∷ t else (k, row) ∷ bump t key sent size)
        ≡ f row + total f t + gain) [
          | true ↦ omega (arith, g row)
          | false ↦ omega (arith, total-bump f t key sent size gain z g)
        ]

-- Counting a packet keeps every row balanced, and adds its bytes once to all
-- that was sent and once to all that was received, whatever its two keys.
pub count_packet-IsBalanced :
    (t : Table) (src dst : Str) (size : ℕ)
    → IsBalanced t
    → IsBalanced (count_packet t src dst size)
      × (total (λ r. r.tx_bytes) (count_packet t src dst size) ≡ total (λ r. r.tx_bytes) t + size)
      × (total (λ r. r.rx_bytes) (count_packet t src dst size) ≡ total (λ r. r.rx_bytes) t + size)
      × (total (λ r. r.packets) (count_packet t src dst size) ≡ total (λ r. r.packets) t + 2)
unfolding count_packet bump_row
count_packet-IsBalanced t src dst size h = (
  bump-IsBalanced (bump t src true size) dst false size (bump-IsBalanced t src true size h),
  omega (
    arith,
    total-bump (λ r. r.tx_bytes) (bump t src true size) dst false size 0 refl (λ row. omega arith),
    total-bump (λ r. r.tx_bytes) t src true size size refl (λ row. refl),
  ),
  omega (
    arith,
    total-bump (λ r. r.rx_bytes) (bump t src true size) dst false size size refl (λ row. refl),
    total-bump (λ r. r.rx_bytes) t src true size 0 refl (λ row. omega arith),
  ),
  omega (
    arith,
    total-bump (λ r. r.packets) (bump t src true size) dst false size 1 refl (λ row. refl),
    total-bump (λ r. r.packets) t src true size 1 refl (λ row. refl),
  ),
)
