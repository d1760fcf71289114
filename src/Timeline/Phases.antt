-- ===== src/Timeline/Phases.antt =====
-- `_PHASE_ORDER`, `classify_phase`, and the lanes of the phases.
use zcc_analysis.Common.{Bool, List, [], ◌∷◌, ◌++◌, map, String, Str, codes, str_eq, if◌then◌else◌}

-- All ignore case.
abbrev pub phase_order : List (String × String)
phase_order =
    ("mtunnel_setup", "mtunnel[_ ]?(?:setup|request|open|start)|BRK_MT_SETUP")
    ∷ (
      "mtunnel_close",
      "mtunnel[_ ]?(?:close|end|terminate)|BRK_MT_(?:CLOSED|TERMINATED)|zpn_mtunnel_end",
    )
    ∷ ("saml_expired", "SAML_EXPIRED|saml.*expir|saml force expired")
    ∷ ("auth_transition", "AUTHENTICATED|AUTHENTICATION_REQUIRED")
    ∷ ("broker_redirect", "BRK_REDIRECT|broker.*redirect|BRK_MT_.*BALANCE")
    ∷ ("dc_changed", "zcc_tunnel.*dc_changed|SME.*chang|Service Edge.*chang")
    ∷ ("power_change", "Power Change Event|Modern Standby|force_reauth_sleep_trigger")
    ∷ ("network_change", "network[_ ](?:change|transition|state)|adapter (?:up|down|state)")
    ∷ (
      "trust_state_change",
      "trusted[_ ]?network.*(?:enter|exit|change)|OFF_TRUSTED|NON_TRUSTED|TRUSTED_NETWORK",
    )
    ∷ ("data_ack", "mtunnel_request_ack|data.*(?:sent|received)|bytes[_ ](?:in|out)")
    ∷ (
      "service_start",
      "service (?:started|starting|initialized)|ZSAService (?:up|start)|ZCC (?:starting|up)",
    )
    ∷ ("cert_expiry_check", "getCertExpiryDaySec|cert.*expir")
    ∷ (
      "policy_push",
      "zpn_(?:trusted_networks|posture_profile|forwarding_profile)_ack|TrayPolicy::serialize|policy.*push",
    )
    ∷ ("kerberos_lookup", "_kerberos\\._tcp|kerberos.*SRV|_ldap\\._tcp|_gc\\._tcp")
    ∷ ("tray_notification", "send ZSATray Notification|tray.*notif")
    ∷ []

-- `search pattern body` is `re.search`, ignoring case.
module _ (search : Str → Str → Bool) where
  -- The loop over the patterns.
  unfoldable pub first_phase : List (String × String) → Str → Str
  first_phase [] body = codes "data"
  first_phase ((name, pattern) ∷ order) body =
      if search (codes pattern) body then codes name else first_phase order body

  unfoldable pub classify_phase : Str → Str
  unfolding first_phase
  classify_phase [] = codes "data"
  classify_phase (c ∷ body) = first_phase phase_order (c ∷ body)

abbrev pub known_phases : List Str
known_phases = map (λ (e : String × String). codes e.0) phase_order ++ codes "data" ∷ []

-- `_PHASE_TO_LANE`
abbrev pub phase_lanes : List (String × String)
phase_lanes =
    ("auth_transition", "auth")
    ∷ ("saml_expired", "auth")
    ∷ ("mtunnel_setup", "mtunnel")
    ∷ ("mtunnel_close", "mtunnel")
    ∷ ("data_ack", "mtunnel")
    ∷ ("broker_redirect", "broker")
    ∷ ("dc_changed", "broker")
    ∷ ("power_change", "power")
    ∷ ("network_change", "network")
    ∷ ("trust_state_change", "network")
    ∷ ("service_start", "service")
    ∷ ("policy_push", "policy")
    ∷ ("cert_expiry_check", "cert")
    ∷ ("kerberos_lookup", "kerberos")
    ∷ ("tray_notification", "tray")
    ∷ []

-- `LANE_ORDER`
abbrev pub lane_order : List Str
lane_order = map codes (
    "auth" ∷ "mtunnel" ∷ "broker" ∷ "power" ∷ "network" ∷ "service" ∷ "policy" ∷ "cert" ∷ "kerberos"
    ∷ "tray" ∷ "data" ∷ [])

-- `_PHASE_TO_LANE.get(phase, "data")`
unfoldable pub lane_in : List (String × String) → Str → Str
unfolding str_eq
lane_in [] phase = codes "data"
lane_in ((name, lane) ∷ lanes) phase =
    if str_eq (codes name) phase then codes lane else lane_in lanes phase

unfoldable pub phase_to_lane : Str → Str
unfolding lane_in
phase_to_lane phase = lane_in phase_lanes phase
