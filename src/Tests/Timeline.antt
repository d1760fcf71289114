-- ===== src/Tests/Timeline.antt =====
-- A session and a window of five lines.

use zcc_analysis.Common.{
  ℕ, ◌+◌, ◌-◌, ◌≡◌, refl, Bool, false, none, some, List, [], ◌∷◌, map, arith, length, drop, keep,
  All, ltb, ◌==◌, Str, str_eq, codes, any, String, mem_str,
}
use zcc_analysis.Common.Outcome.{ok}
use zcc_analysis.Common.Groups.{Groups, lookup}
use zcc_analysis.Common.Counters.{get, sum}
use zcc_analysis.Common.Sorting.{IsSortedBy}
use zcc_analysis.Viewer.Index.{Line}
use zcc_analysis.Viewer.Build.{line_le}
use zcc_analysis.Timeline.Phases.{classify_phase, phase_to_lane}
use zcc_analysis.Timeline.Session.{
  Python, ReconLine, Session, matcher, phase_of, recon_line, matched, kind_of, reconstruct_session,
  guess_id_type,
}
use zcc_analysis.Timeline.Session.Laws.{Spans, reconstruct_session-IsRecon}
use zcc_analysis.Timeline.Window.{
  Window, is_inside, event_le, is_wanted, lane_of, event_of, window_of, build_timeline,
}
use zcc_analysis.Timeline.Window.Laws.{build_timeline-IsWindow}
use zcc_analysis.Timeline.Diff.{diff_windows}
use zcc_analysis.Timeline.Diff.Laws.{mirror, diff_windows_symm, window_of-AreSets}

-- A text is a match of a pattern that has its first character.
abbrev search : Str → Str → Bool
search pattern [] = false
search pattern (c ∷ body) = any (λ d. c == d) pattern

abbrev py : Python
py = record {
  search = search;
  is_uuid = λ q. false;
  is_prefix = λ q. false;
  find_all = λ pattern body. drop 2 body ∷ [];
  escape = λ q. q;
  strip = λ q. q;
  lower = λ s. s;
  is_digit = λ q. any (λ c. c == b'4') q;
}

abbrev line : ℕ → String → ℕ → Line
line ts body n = record {
  ts = ts;
  level = [];
  body = codes body;
  component = codes "ZSATunnel";
  source_file = codes "f";
  line_no = n;
  session_id = none;
}

abbrev lines : List Line
lines = line 20 "a tag_id=42" 3 ∷ line 10 "Sx 42" 1 ∷ line 30 "zz" 4 ∷ line 12 "Mm 42" 2 ∷ []

-- Found as a free text.
abbrev session : Session
session = reconstruct_session py lines (codes "42") (some (codes "free"))

times_of_session : map (λ (l : ReconLine). l.ts) session.lines ≡ 10 ∷ 12 ∷ 20 ∷ []
unfolding reconstruct_session matched
times_of_session = refl

kind_of_query : guess_id_type py (codes "42") ≡ codes "tag_id"
unfolding guess_id_type
kind_of_query = refl

reconstruct_session-IsRecon_example :
    let kind : Str = kind_of py (codes "42") none in
    let found : List Line = matched py lines (codes "42") kind in
    let matching : List Line = keep (matcher py (codes "42") kind) lines in
    let s : Session = reconstruct_session py lines (codes "42") none in
    (s.lines ≡ map (recon_line py) found)
    × IsSortedBy line_le found
    × (length (keep (λ ln. ltb 11 ln.ts) found) ≡ length (keep (λ ln. ltb 11 ln.ts) matching))
    × (s.line_count ≡ length matching)
    × All (λ l. Spans s.first_ts s.last_ts l.ts) s.lines
    × (sum s.files_touched ≡ s.line_count)
    × (sum s.components_touched ≡ s.line_count)
    × (sum s.phase_histogram ≡ s.line_count)
    × (get s.phase_histogram (codes "data")
        ≡ length (keep (λ ln. str_eq (phase_of py ln) (codes "data")) matching))
    × (mem_str (codes "42") (lookup str_eq s.related_id_summary kind) ≡ false)
reconstruct_session-IsRecon_example =
    reconstruct_session-IsRecon py lines (codes "42") none (codes "data") (λ ln. ltb 11 ln.ts)

abbrev extract_ids : Str → Groups Str Str
extract_ids body = (codes "word", body ∷ []) ∷ []

build_timeline-IsWindow_example :
    let inside : Line → Bool = is_inside (15 - 6) (15 + 6) in
    let lines_of : List Line =
      keep (λ ln. str_eq (lane_of search extract_ids ln) (codes "mtunnel")) (keep inside lines) in
    (w : Window) × (build_timeline search extract_ids lines 15 6 none ≡ ok w)
    × (w.total_events ≡ length (keep inside lines))
    × (sum w.lane_counts ≡ w.total_events)
    × (get w.lane_counts (codes "mtunnel") ≡ length (lookup str_eq w.lane_events (codes "mtunnel")))
    × (length (keep (λ e. ltb 11 e.ts) (lookup str_eq w.lane_events (codes "mtunnel")))
        ≡ length (keep (λ e. ltb 11 e.ts) (map (event_of search extract_ids) lines_of)))
    × IsSortedBy event_le (lookup str_eq w.lane_events (codes "mtunnel"))
unfolding is_wanted
build_timeline-IsWindow_example =
    build_timeline-IsWindow search extract_ids lines 15 6 none (codes "mtunnel") (λ e. ltb 11 e.ts)
      (omega arith) (omega arith) refl

abbrev early : Window
early = window_of search extract_ids lines 15 6 none 9 21

abbrev late : Window
late = window_of search extract_ids lines 25 6 none 19 31

counts_of_early : early.total_events ∷ get early.lane_counts (codes "mtunnel") ∷ [] ≡ 3 ∷ 3 ∷ []
unfolding window_of get classify_phase phase_to_lane
counts_of_early = refl

diff_windows_symm_example : diff_windows late early ≡ mirror (diff_windows early late)
diff_windows_symm_example =
    diff_windows_symm early late (window_of-AreSets search extract_ids 9 21 none lines 15 6)
      (window_of-AreSets search extract_ids 19 31 none lines 25 6)
