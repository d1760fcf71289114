-- ===== src/Ledger/Build/Distinct.antt =====
-- Records at distinct addresses.

use zcc_analysis.Common.{
  ℕ, ◌≤◌, ◌≡◌, refl, sym, subst, ◌↔◌, true, false, List, [], ◌∷◌, arith, length, keep, All,
  str_eq_iff,
}
use zcc_analysis.Common.Groups.Laws.{eq_symm}
use zcc_analysis.Common.Sorting.{Pairwise, keep-Pairwise, sort_by-Pairwise}
use zcc_analysis.Ledger.Closes.{Close, dedupe_carriers, tcp_close_ids}
use zcc_analysis.Ledger.Closes.Laws.{is_kept, dedupe_carriers-keep}
use zcc_analysis.Ledger.Store.{Address, Mention, address_eq}
use zcc_analysis.Ledger.Build.{Records, closes_of, close_le, address_of}

pub address_eq_iff : (a b : Address) → (address_eq a b ≡ true) ↔ (a ≡ b)
unfolding address_eq
address_eq_iff a b = (
  λ e. λ i. ((str_eq_iff a.0 b.0).0 (ground (arith, e)) i, ground_snd e i),
  λ e. rw e (ground (arith, (str_eq_iff b.0 b.0).1 refl)),
)
  where
    ground_snd : address_eq a b ≡ true → a.1 ≡ b.1
    ground_snd e = ground (arith, e)

-- How many of the records stand at an address.
abbrev pub times : Address → List Close → ℕ
times a raw = length (keep (λ r. address_eq a (address_of r)) raw)

abbrev Differ : Close → Close → Type 0
Differ r s = address_eq (address_of r) (address_of s) ≡ false

-- No two records stand at one address.
abbrev pub AreDistinct : List Close → Type 0
AreDistinct raw = Pairwise Differ raw

Differ-symm : (r s : Close) → Differ r s → Differ s r
Differ-symm r s h = eq_symm address_eq address_eq_iff (address_of r) (address_of s) h

pub closes_of-AreDistinct : (rs : Records) → AreDistinct rs.raw → AreDistinct (closes_of rs)
closes_of-AreDistinct rs h =
    sort_by-Pairwise Differ Differ-symm close_le (dedupe_carriers rs.raw).0 (
      subst AreDistinct (sym (dedupe_carriers-keep rs.raw).0)
        (keep-Pairwise Differ (is_kept (tcp_close_ids rs.raw)) rs.raw h))

none_at :
    (a : Address) (raw : List Close)
    → All (λ r. address_eq a (address_of r) ≡ false) raw
    → times a raw ≡ 0
none_at a [] h = refl
none_at a (r ∷ raw) h = rw h.0 (none_at a raw h.1)

pub once_at : (raw : List Close) → AreDistinct raw → All (λ c. times (address_of c) raw ≡ 1) raw
once_at [] h = tt
once_at (r ∷ raw) h = (
  rw ((address_eq_iff (address_of r) (address_of r)).1 refl)
      (omega (arith, none_at (address_of r) raw h.0)),
  later raw h.0 (once_at raw h.1),
)
  where
    later :
        (cs : List Close)
        → All (Differ r) cs
        → All (λ c. times (address_of c) raw ≡ 1) cs
        → All (λ c. times (address_of c) (r ∷ raw) ≡ 1) cs
    later [] f g = tt
    later (c ∷ cs) f g = (rw (Differ-symm r c f.0) g.0, later cs f.1 g.1)

-- A line stands no later than the records at an address.
abbrev pub IsBefore : List Close → Address → Mention → Type 0
IsBefore raw a row = All (λ r. address_eq a (address_of r) ≡ true → row.ts ≤ r.ts) raw

abbrev pub AreSimultaneous : List Close → Close → Type 0
AreSimultaneous raw c = All (λ r. address_eq (address_of c) (address_of r) ≡ true → c.ts ≤ r.ts) raw

pub simultaneous : (raw : List Close) → AreDistinct raw → All (AreSimultaneous raw) raw
simultaneous [] h = tt
simultaneous (r ∷ raw) h = ((λ e. omega arith, apart raw h.0), later raw h.0 (simultaneous raw h.1))
  where
    apart :
        (cs : List Close)
        → All (Differ r) cs
        → All (λ c. address_eq (address_of r) (address_of c) ≡ true → r.ts ≤ c.ts) cs
    apart [] f = tt
    apart (c ∷ cs) f = (λ e. ground (arith, e, f.0), apart cs f.1)

    later :
        (cs : List Close)
        → All (Differ r) cs
        → All (AreSimultaneous raw) cs
        → All (AreSimultaneous (r ∷ raw)) cs
    later [] f g = tt
    later (c ∷ cs) f g = ((λ e. ground (arith, e, Differ-symm r c f.0), g.0), later cs f.1 g.1)
