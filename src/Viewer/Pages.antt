-- ===== src/Viewer/Pages.antt =====
-- `paginate`: the lines of a page, its number, and how many pages there are. A page below 0 is below 1, as
-- page 0 is, so the page is a natural number; a page size below 1 is 0.
pub mod Laws
use zcc_analysis.Common.{
  ℕ, zero, suc, ◌+◌, ◌-◌, ◌*◌, ◌/◌, max, List, Bool, length, take, drop, ltb, ◌==◌, if◌then◌else◌,
}

-- `(slice, page, total_pages)`
pub record Page {ℓ} (A : Type ℓ) : Type ℓ where
  pub slice : List A
  pub page : ℕ
  pub total_pages : ℕ

unfoldable pub real_size : ℕ → ℕ
real_size page_size = if page_size == 0 then 200 else page_size

-- The two tests on the page.
unfoldable pub clamp : ℕ → ℕ → ℕ
clamp total page = let low = if ltb page 1 then 1 else page in if ltb total low then total else low

module _ {ℓ} {A : Type ℓ} where
  unfoldable pub pages : List A → ℕ → ℕ
  unfolding real_size
  pages lines page_size = max 1 ((length lines + real_size page_size - 1) / real_size page_size)

  unfoldable pub paginate : List A → ℕ → ℕ → Page A
  unfolding real_size pages clamp
  paginate lines page page_size =
      let total = pages lines page_size in
      let at = clamp total page in
      let start = (at - 1) * real_size page_size in
      record {
        slice = take (start + real_size page_size - start) (drop start lines);
        page = at;
        total_pages = total;
      }
