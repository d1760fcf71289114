-- ===== src/Query/Events.antt =====
-- `_EVENT_PATTERNS`: the regular expression of each named event. All ignore case.
use zcc_analysis.Common.{Option, none, some, List, [], ◌∷◌, String, Str, codes, str_eq}
use zcc_analysis.Common.{if◌then◌else◌}

abbrev pub event_patterns : List (String × String)
event_patterns =
    (
      "auth_transition",
      "auth.*state.*(?:AUTHENTICATED|AUTHENTICATION_REQUIRED)|zpn.*auth.*state|Auth::.*State",
    )
    ∷ ("mtunnel_setup", "mtunnel[_ ]?(?:setup|request|open|start)|BRK_MT_SETUP")
    ∷ (
      "mtunnel_close",
      "mtunnel[_ ]?(?:close|end|terminate)|BRK_MT_(?:CLOSED|TERMINATED)|zpn_mtunnel_end",
    )
    ∷ ("broker_redirect", "BRK_REDIRECT|broker.*redirect|BRK_MT_.*BALANCE")
    ∷ ("power_change", "Power Change Event|Modern Standby|force_reauth_sleep_trigger")
    ∷ ("saml_expired", "SAML_EXPIRED|saml.*expir|saml force expired")
    ∷ (
      "service_start",
      "service (?:started|starting|initialized)|ZSAService (?:up|start)|ZCC (?:starting|up)",
    )
    ∷ ("network_change", "network[_ ](?:change|transition|state)|adapter (?:up|down|state)")
    ∷ ("dc_changed", "zcc_tunnel.*dc_changed|SME.*chang|Service Edge.*chang")
    ∷ (
      "trust_state_change",
      "trusted[_ ]?network.*(?:enter|exit|change)|OFF_TRUSTED|NON_TRUSTED|TRUSTED_NETWORK",
    )
    ∷ ("captive_portal", "captive[_ ]?portal")
    ∷ ("cert_expiry_check", "getCertExpiryDaySec|cert.*expir")
    ∷ ("dtls_fallback", "DTLS.*(?:fallback|fail).*TLS|falling back to TLS")
    ∷ ("kerberos_lookup", "_kerberos\\._tcp|kerberos.*SRV|_ldap\\._tcp|_gc\\._tcp")
    ∷ (
      "policy_push",
      "zpn_(?:trusted_networks|posture_profile|forwarding_profile)_ack|TrayPolicy::serialize|policy.*push",
    )
    ∷ ("pac_download", "PAC.*(?:download|fetch)|pac_download|PACFile")
    ∷ ("tray_notification", "send ZSATray Notification|tray.*notif")
    ∷ ("wfp_sublayer", "WFP.*SubLayer|ZEVENT_FW_SUBLAYER_WEIGHT_MISMATCH|SenseNdr")
    ∷ ("posture_result", "posture.*(?:pass|fail|result)|POSTURE_CHECK")
    ∷ []

-- `table.get(name)`, on a table of literals.
unfoldable pub get_literal : List (String × String) → Str → Option Str
unfolding str_eq
get_literal [] name = none
get_literal ((k, v) ∷ t) name = if str_eq name (codes k) then some (codes v) else get_literal t name
