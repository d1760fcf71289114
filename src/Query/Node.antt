-- ===== src/Query/Node.antt =====
-- The syntax tree of a query, what can be raised on the way to it, and when a line matches it.
use zcc_analysis.Common.{ℕ, Bool, true, false, not, ◌&&◌, ◌||◌, Option, none, some}
use zcc_analysis.Common.{Str, str_eq, contains, leb}
use zcc_analysis.Query.Engine.{Engine, Pattern, ℤ}

-- The `QueryError`s, by the message that they carry.
pub data QueryError : Type 0 where
  unterminated_quote : ℕ → QueryError
  unterminated_regex : ℕ → QueryError
  unexpected_character : ℕ → ℕ → QueryError
  bad_regex : Str → QueryError
  unknown_event : Str → QueryError
  unknown_field : Str → QueryError
  not_an_integer : Str → QueryError
  bad_timestamp : Str → QueryError
  bad_duration : Str → QueryError
  bad_duration_unit : Str → QueryError
  trailing_token : Str → QueryError
  end_of_query : QueryError
  expected_atom : QueryError
  missing_paren : QueryError
  unexpected_token : Str → QueryError
  empty_query : QueryError

-- All that a call of the parser can raise; `out_of_fuel` has no counterpart in the program.
pub data Raised : Type 0 where
  query_error : QueryError → Raised
  overflow_error : Raised
  re_error : Raised
  out_of_fuel : Raised

-- The attributes of an `IndexedLine` that a query may name.
pub data Field : Type 0 where
  component level pid tid session_id host source_file : Field

mutual
  pub data Node : Type 0 where
    and_node : Nodes → Node
    or_node : Nodes → Node
    not_node : Node → Node
    text_match : Str → Node
    regex_match : Pattern → Node
    field_equals : Field → Str → Node
    field_contains : Field → Str → Node
    time_range : ℕ → ℕ → Node
    err_code_match : ℤ → Pattern → Node
    code_match : Str → Pattern → Node
    event_match : Str → Pattern → Node

  -- `List[QueryNode]`
  pub data Nodes : Type 0 where
    nil : Nodes
    cons : Node → Nodes → Nodes

-- `IndexedLine`, with a missing timestamp as `none`.
pub record Line : Type 0 where
  pub ts : Option ℕ
  pub pid : Str
  pub tid : Str
  pub level : Str
  pub body : Str
  pub component : Str
  pub source_file : Str
  pub line_no : ℕ
  pub session_id : Option Str
  pub host : Option Str

-- `getattr(line, name, None)`
unfoldable pub attribute : Field → Line → Option Str
attribute component l = some l.component
attribute level l = some l.level
attribute pid l = some l.pid
attribute tid l = some l.tid
attribute session_id l = l.session_id
attribute host l = l.host
attribute source_file l = some l.source_file

module _ (E : Engine) where
  -- `TextMatch.matches`
  unfoldable pub text_in : Str → Str → Bool
  unfolding contains
  text_in needle body = contains (E.lower needle) (E.lower body)

  -- `FieldEquals.matches`
  unfoldable pub equals_field : Option Str → Str → Bool
  unfolding str_eq
  equals_field none value = false
  equals_field (some v) value = str_eq (E.lower v) (E.lower value)

  -- `FieldContains.matches`
  unfoldable pub contains_field : Option Str → Str → Bool
  unfolding contains
  contains_field none needle = false
  contains_field (some v) needle = contains (E.lower needle) (E.lower v)

  -- `TimeRange.matches`
  unfoldable pub in_range : Option ℕ → ℕ → ℕ → Bool
  in_range none start end = false
  in_range (some ts) start end = leb start ts && leb ts end

  unfoldable mutual
    pub matches : Node → Line → Bool
    matches (and_node cs) l = matches_all cs l
    matches (or_node cs) l = matches_any cs l
    matches (not_node c) l = not (matches c l)
    matches (text_match needle) l = text_in needle l.body
    matches (regex_match p) l = E.search p l.body
    matches (field_equals f v) l = equals_field (attribute f l) v
    matches (field_contains f v) l = contains_field (attribute f l) v
    matches (time_range start end) l = in_range l.ts start end
    matches (err_code_match n p) l = E.search p l.body
    matches (code_match c p) l = E.search p l.body
    matches (event_match e p) l = E.search p l.body

    -- `all(c.matches(line) for c in self.children)`
    matches_all : Nodes → Line → Bool
    matches_all nil l = true
    matches_all (cons c cs) l = matches c l && matches_all cs l

    -- `any(c.matches(line) for c in self.children)`
    matches_any : Nodes → Line → Bool
    matches_any nil l = false
    matches_any (cons c cs) l = matches c l || matches_any cs l
