-- ===== src/Tests/Query.antt =====
-- query.py on concrete queries.
use zcc_analysis.Common.{◌≡◌, ◌≢◌, refl, true, none, some, List, [], ◌∷◌}
use zcc_analysis.Common.{String, codes, keep}
use zcc_analysis.Common.Outcome.{Outcome, ok, raised, ◌>>=◌}
use zcc_analysis.Query.Node.{
  Node, Raised, Line, out_of_fuel, text_match, field_equals, matches, Field, nil, cons, and_node,
  not_node, or_node, text_in,
}
use zcc_analysis.Query.Tokens.{
  lparen, rparen, and_kw, not_kw, atom, tokenize, scan_word, scan_delimited, keyword,
}
use zcc_analysis.Query.Atoms.{
  parse_atom_token, is_delimited, parse_word, partition, parse_field, direct_field, parse_ts,
  parse_duration, parse_time,
}
use zcc_analysis.Query.Atoms.Time.{IsRange, parse_time-IsRange}
use zcc_analysis.Query.Parser.{parse, parse_query, parse_or, parse_unary}
use zcc_analysis.Common.{false}
use zcc_analysis.Query.Parser.Printer.{
  Alts, word, neg, group, one, both, only, either, emit_alts, tree_alts,
}
use zcc_analysis.Query.Parser.RoundTrip.{parse-emit}
use zcc_analysis.Query.Search.{find_matches}
use zcc_analysis.Query.Search.Limit.{limited, find_matches_filters, parse_query-ends}
use zcc_analysis.Tests.Engine.{ascii}

-- level:ERR OR NOT tunnel x AND (a OR b)
abbrev sample : Alts
sample = either (one (word (codes "level:ERR"))) (
    only (
      both (neg (word (codes "tunnel"))) false (
        both (word (codes "x")) true
          (one (group (either (one (word (codes "a"))) (only (one (word (codes "b"))))))))))

tokens_of_query :
    tokenize ascii (codes "level:err and not (dns \"a b\")")
    ≡ ok (
        atom (codes "level:err")
        ∷ and_kw
        ∷ not_kw
        ∷ lparen
        ∷ atom (codes "dns")
        ∷ atom (codes "\"a b\"")
        ∷ rparen
        ∷ [])
unfolding tokenize scan_word scan_delimited keyword
tokens_of_query = refl

tree_of_query :
    parse_query ascii (codes "level:err dns or not x")
    ≡ ok (
        or_node (
          cons
            (and_node
              (cons (field_equals Field.level (codes "err")) (cons (text_match (codes "dns")) nil)))
            (cons (not_node (text_match (codes "x"))) nil)))
unfolding parse_query scan_word keyword parse_or parse_unary parse_atom_token is_delimited
    parse_word partition parse_field direct_field
tree_of_query = refl

parse-emit_example : parse ascii (emit_alts sample []) ≡ tree_alts ascii sample
parse-emit_example = parse-emit ascii sample

abbrev line : String → Line
line body = record {
  ts = some 5_000_000;
  pid = codes "1";
  tid = codes "2";
  level = codes "ERR";
  body = codes body;
  component = codes "tunnel";
  source_file = codes "ZSATunnel.log";
  line_no = 1;
  session_id = none;
  host = none;
}

abbrev lines : List Line
lines = line "DNS fail" ∷ line "ok" ∷ line "dns again" ∷ []

two_lines :
    find_matches ascii lines (codes "dns") (some 5) ≡ ok (line "DNS fail" ∷ line "dns again" ∷ [])
unfolding find_matches parse_query scan_word keyword parse_or parse_unary parse_atom_token
    is_delimited parse_word partition matches text_in
two_lines = refl

-- A limit of 0 still yields a line.
limit_zero : find_matches ascii lines (codes "dns") (some 0) ≡ ok (line "DNS fail" ∷ [])
unfolding find_matches parse_query scan_word keyword parse_or parse_unary parse_atom_token
    is_delimited parse_word partition matches text_in
limit_zero = refl

find_matches_filters_example : find_matches ascii lines (codes "dns") (some 1) ≡ (
    parse_query ascii (codes "dns") >>= λ node.
    ok (limited (some 1) (keep (matches ascii node) lines)))
find_matches_filters_example = find_matches_filters ascii lines (codes "dns") (some 1)

parse_query-ends_example :
    ◌≢◌ {A = Outcome Raised Node} (parse_query ascii (codes "(a or b")) (raised out_of_fuel)
parse_query-ends_example = parse_query-ends ascii (codes "(a or b")

parse_time-IsRange_example : IsRange (parse_time ascii (codes "9..3"))
parse_time-IsRange_example = parse_time-IsRange ascii (codes "9..3")

ts_5 : parse_ts ascii (codes "5") ≡ ok 5_000_000
unfolding parse_ts
ts_5 = refl

hour : parse_duration ascii (codes "1h") ≡ ok 3_600_000_000
unfolding parse_duration
hour = refl
