-- ===== src/Viewer/Build/Order.antt =====
-- The order of lines, and the counters of bytes.
use zcc_analysis.Common.{◌≡◌, arith, true, false, str_eq_iff}
use zcc_analysis.Common.Order.{str_le_total, str_le_antisymm, str_le_trans}
use zcc_analysis.Viewer.Index.{Line}
use zcc_analysis.Viewer.Build.{line_le}

pub line_le_total : (a b : Line) → line_le a b ≡ false → line_le b a ≡ true
unfolding line_le
line_le_total a b h = ground (
  arith,
  str_le_total a.source_file b.source_file,
  str_eq_iff a.source_file b.source_file,
  str_eq_iff b.source_file a.source_file,
)

pub line_le_trans : (a b c : Line) → line_le a b ≡ true → line_le b c ≡ true → line_le a c ≡ true
unfolding line_le
line_le_trans a b c h k = ground (
  arith,
  str_le_trans a.source_file b.source_file c.source_file,
  str_le_antisymm a.source_file b.source_file,
  str_eq_iff a.source_file b.source_file,
  str_eq_iff b.source_file c.source_file,
  str_eq_iff a.source_file c.source_file,
)
