-- ===== src/Relations/Texts.antt =====
-- The texts that are made of an event: `paired_with` of a trigger, and the parts of labels and details.
use zcc_analysis.Common.{
  true, false, Option, none, some, [], ◌∷◌, ◌++◌, if◌then◌else◌, Str, codes, String,
}
use zcc_analysis.Common.Outcome.{Outcome, ok, raised}
use zcc_analysis.Relations.Events.{
  Datetime, Value, instant, text, Event, dict, Raised, type_error, true_attribute,
}

abbrev pub no_text : Event → Datetime → Outcome Raised Str
no_text ev t = ok []

-- The text of a `force_reauth_ts` beside an exit: the times are subtracted as they are, so one with a
-- zone and one without raise TypeError. `render` makes the text, with datetime's `isoformat`.
unfoldable pub paired : (Datetime → Datetime → Str) → Datetime → Option Value → Outcome Raised Str
paired render exit (some (instant fr)) = elim fr.aware [
  | true ↦ if exit.aware then ok (render fr exit) else raised type_error
  | false ↦ if exit.aware then raised type_error else ok (render fr exit)
]
paired render exit _ = ok []

-- `paired_with` of a standby exit.
unfoldable pub paired_with : (Datetime → Datetime → Str) → Event → Datetime → Outcome Raised Str
unfolding paired
paired_with render (dict get) exit = paired render exit (get (codes "force_reauth_ts"))
paired_with render _ exit = ok []

-- The text of a value in an f-string; `shown` is that of a value that is no text.
unfoldable pub formatted : (Value → Str) → Value → Str
formatted shown (text s) = s
formatted shown v = shown v

-- The attribute in an f-string, or `default` if it does not count as true.
unfoldable pub attribute_or : (Value → Str) → String → String → Event → Str
unfolding true_attribute formatted
attribute_or shown name default ev = elim (true_attribute name ev) [
  | none ↦ codes default
  | some v ↦ formatted shown v
]

-- `" · ".join(detail_bits)`, of a host and a tag: a host that is no text makes it raise TypeError.
unfoldable pub joined : Option Value → Option Str → Outcome Raised Str
joined none none = ok []
joined none (some tag) = ok tag
joined (some (text host)) none = ok host
joined (some (text host)) (some tag) = ok (host ++ (32 ∷ 183 ∷ 32 ∷ tag))
joined (some _) tag = raised type_error

unfoldable pub close_detail : (Value → Str) → Event → Outcome Raised Str
unfolding true_attribute formatted joined
close_detail shown ev =
    joined (true_attribute "broker_host" ev) (elim (true_attribute "tag_id" ev) [
      | none ↦ none
      | some v ↦ some (codes "tag " ++ formatted shown v)
    ])
