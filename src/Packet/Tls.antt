-- ===== src/Packet/Tls.antt =====
-- `_parse_tls_sni`, `_parse_tls_alert` and `_format_tls_alert`: the first TLS record of a payload.
pub mod Total
use zcc_analysis.Common.{
  ℕ, zero, suc, ◌+◌, ◌*◌, Bool, true, false, ◌&&◌, ◌||◌, not, Option, none, some, List, [], ◌∷◌,
  ◌++◌, map, length, ltb, leb, ◌==◌, if◌then◌else◌, Str, codes, String,
}
use zcc_analysis.Common.Outcome.{Outcome, ok, raised, ◌>>=◌}
use zcc_analysis.Packet.Bytes.{Bytes, Fault, out_of_fuel, Read, byte, word16, slice}
use zcc_analysis.Packet.Frames.{or_none}
use zcc_analysis.Packet.Names.{decode_lower, strip_dots}
use zcc_analysis.Packet.Text.{decimal}

module _ (hs : Bytes) where
  -- The name in a server_name extension whose data starts at `o`.
  unfoldable pub server_name : ℕ → ℕ → Read (Option Str)
  unfolding byte word16 decode_lower strip_dots
  server_name o elen =
      let named = (do
        name_len ← word16 hs (o + 3)
        ok (some (strip_dots (map decode_lower (slice (o + 5) (o + 5 + name_len) hs))))) in
      let typed = byte hs (o + 2) >>= λ name_type. if name_type == 0 then named else ok none in
      if ltb elen 5 then ok none else typed

  -- The loop over the extensions at the offset `o`.
  unfoldable pub extensions_from : ℕ → ℕ → ℕ → Read (Option Str)
  unfolding word16 server_name
  extensions_from zero ext_end o = raised out_of_fuel
  extensions_from (suc fuel) ext_end o =
      let inside = (do
        etype ← word16 hs o
        elen ← word16 hs (o + 2)
        if etype == 0
            then server_name (o + 4) elen
            else extensions_from fuel ext_end (o + 4 + elen)) in
      if leb (o + 4) ext_end && leb (o + 4) (length hs) then inside else ok none

  -- A ClientHello, up to its extensions.
  unfoldable pub client_hello : Read (Option Str)
  unfolding byte word16 extensions_from
  client_hello = do
    sid_len ← byte hs 38
    cs_len ← word16 hs (39 + sid_len)
    cm_len ← byte hs (41 + sid_len + cs_len)
    let o = 42 + sid_len + cs_len + cm_len
    let found = (do
      ext_total_len ← word16 hs o
      extensions_from (suc (length hs)) (o + 2 + ext_total_len) (o + 2))
    if ltb (length hs) (o + 2) then ok none else found

-- The record and its handshake; `none` where it is no ClientHello.
unfoldable pub parse_record : Bytes → Read (Option Str)
unfolding byte word16 client_hello
parse_record tcp_payload = if ltb (length tcp_payload) 5 then ok none else do
  content ← byte tcp_payload 0
  rec_len ← word16 tcp_payload 3
  let hs = slice 5 (5 + rec_len) tcp_payload
  let hello = byte hs 0 >>= λ kind. if kind == 1 then client_hello hs else ok none
  if not (content == 0x16) || (ltb rec_len 4 || ltb (length tcp_payload) (5 + rec_len))
      then ok none
      else hello

-- `except Exception: return None`
unfoldable pub parse_tls_sni : Bytes → Option Str
unfolding parse_record or_none
parse_tls_sni tcp_payload = or_none (parse_record tcp_payload)

unfoldable pub parse_tls_alert : Bytes → Read (Option (ℕ × ℕ))
unfolding byte
parse_tls_alert tcp_payload = if ltb (length tcp_payload) 7 then ok none else do
  content ← byte tcp_payload 0
  major ← byte tcp_payload 1
  level ← byte tcp_payload 5
  description ← byte tcp_payload 6
  ok (if content == 0x15 && major == 3 then some (level, description) else none)

-- `_TLS_ALERT_DESCRIPTIONS`
abbrev pub alert_descriptions : List (ℕ × String)
alert_descriptions =
    (0, "close_notify")
    ∷ (10, "unexpected_message")
    ∷ (20, "bad_record_mac")
    ∷ (21, "decryption_failed")
    ∷ (22, "record_overflow")
    ∷ (30, "decompression_failure")
    ∷ (40, "handshake_failure")
    ∷ (41, "no_certificate")
    ∷ (42, "bad_certificate")
    ∷ (43, "unsupported_certificate")
    ∷ (44, "certificate_revoked")
    ∷ (45, "certificate_expired")
    ∷ (46, "certificate_unknown")
    ∷ (47, "illegal_parameter")
    ∷ (48, "unknown_ca")
    ∷ (49, "access_denied")
    ∷ (50, "decode_error")
    ∷ (51, "decrypt_error")
    ∷ (60, "export_restriction")
    ∷ (70, "protocol_version")
    ∷ (71, "insufficient_security")
    ∷ (80, "internal_error")
    ∷ (86, "inappropriate_fallback")
    ∷ (90, "user_canceled")
    ∷ (100, "no_renegotiation")
    ∷ (109, "missing_extension")
    ∷ (110, "unsupported_extension")
    ∷ (111, "certificate_unobtainable")
    ∷ (112, "unrecognized_name")
    ∷ (113, "bad_certificate_status_response")
    ∷ (114, "bad_certificate_hash_value")
    ∷ (115, "unknown_psk_identity")
    ∷ (116, "certificate_required")
    ∷ (120, "no_application_protocol")
    ∷ []

-- `table.get(n, prefix + str(n))`
unfoldable pub name_in : List (ℕ × String) → ℕ → Str → Str
unfolding decimal
name_in [] n prefix = prefix ++ decimal n
name_in ((k, name) ∷ table) n prefix = if k == n then codes name else name_in table n prefix

unfoldable pub format_tls_alert : ℕ → ℕ → Str
unfolding name_in decimal
format_tls_alert level description =
    let level_name =
      if level == 2
      then codes "fatal"
      else if level == 1
      then codes "warning"
      else b'l' ∷ decimal level in
    level_name ++ b'/' ∷ name_in alert_descriptions description (codes "code-")
