-- ===== src/Buckets/Rules.antt =====
-- `_RULES` and the defaults of the components: the patterns that classify a line.
use zcc_analysis.Common.{Option, none, some, List, [], ◌∷◌, ◌++◌, String}

-- A rule with the service and the subsystem that it declares. All patterns ignore case.
pub record Rule : Type 0 where
  pub service : Option String
  pub subsystem : Option String
  pub pattern : String

abbrev pub rule : Option String → Option String → String → Rule
rule service subsystem pattern = record {
  service = service;
  subsystem = subsystem;
  pattern = pattern;
}

abbrev pub product_rules : List Rule
product_rules =
    rule (some "zpa") (some "tunnel")
      "\\bBRK_MT_[A-Z0-9_]+|\\bmtunnel|\\bzpn_mtunnel|\\btag_id\\b|\\bbroker[a-z0-9_-]*\\.(?:[a-z0-9_-]+\\.)*(?:zpath|zpalb|zpaservice)\\.net"
    ∷ rule (some "zpa") (some "auth")
        "\\bZPN_AUTH|ZPN_ERR_[A-Z0-9_]*AUTH|zpa.*re-?auth|SAML_EXPIRED|BRK_REDIRECT|zpn_auth_"
    ∷ rule (some "zpa") (some "policy")
        "\\bzpn_(?:trusted_networks|posture_profile|forwarding_profile|app_seg)|application segment|app_seg|segment group"
    ∷ rule (some "zpa") (some "dns") "ZPN_ERR_DNS|zpa.*dns (?:check|resolve)"
    ∷ rule (some "zpa") (some "tunnel") "\\bZPN:\\s*\\d+\\s*:|Control Message (?:Request|Response)"
    ∷ rule (some "zpa") none
        "\\bZPN_[A-Z0-9_]{3,}|\\bZPA\\b|zpath\\.net|processZPAPart|TUNNEL_FORWARDING|assistant"
    ∷ rule (some "zia") (some "tunnel")
        "\\bZT2[AB]\\b|Z-?Tunnel|ZSCCM::|svpn_tun|TunMTU|DataChannelCount|raiseSessionInformationEvent|\\bDTLS\\b"
    ∷ rule (some "zia") (some "policy")
        "Network hostname csv|Resolved exclude hostname|\\bPAC\\b|pac_url|forwardingProfileActions|proxy auto ?config"
    ∷ rule (some "zia") (some "auth")
        "mobile\\.zscaler[a-z0-9]*\\.(?:net|us)|mobile\\.zscloud\\.net|samlsp[a-z0-9.-]*\\.zscaler\\.com|Tunnel api request"
    ∷ rule (some "zia") none
        "\\bZIA\\b|\\bSME\\b|Service Edge|sme[a-z0-9_.-]*\\.zscaler[a-z0-9]*\\.net|zscaler(?:two|three|beta|gov|ten)?\\.(?:net|us)|zscloud\\.net"
    ∷ rule (some "zdx") (some "diagnostics")
        "\\bZDX\\b|web ?probe|cloud ?path|deep ?trace|ZTraceroute|\\bmtr_|probe (?:result|latency)|upm_"
    ∷ rule none (some "proxy") "UDP Proxy:|endConnection called"
    ∷ rule (some "os_platform") (some "network")
        "reading registry:\\s*HKEY_|ZSVpnBypassRouteManager|refreshVPNBypassRoutes|checkAndRestartTunIfRequired"
    ∷ rule none (some "service") "SERVICE_CONTROL_[A-Z_]+|serviceControllerHandler"
    ∷ rule none (some "proxy")
        "Disconnecting\\s*\\[?[0-9a-f:.]|Dest Address in local proxy|Closing client socket|_requestBuffer|handler buf used"
    ∷ rule none (some "diagnostics")
        "\\bZPHM\\b|onProxyHealthResult|Loopback Connection check|/conntest"
    ∷ rule none (some "network") "getCurrentNetworkType|getSmeProxyState|ZApp Status"
    ∷ rule none (some "tunnel") "fallback to T1|Allowing T1 connection"
    ∷ rule (some "zpa") (some "tunnel")
        "ZpnBrokerConn|Zpn socket|zpnSocketRead|Zpn client|_zpnRequestBuffer|Zpn Client socket|processResponse rxBytes|START_TLV_PARSING"
    ∷ rule (some "zia") (some "tunnel")
        "Use Sme:|SME re(?:quest|sponse):|\\bCnonce\\b|Use T2 for Proxied|useTunnel2Prot|T2HC packet"
    ∷ rule none (some "proxy")
        "Exception in TcpConnection|server socket mapping state|Connecting server socket|Adding entry to lookup table|Client Buffer not writable|getInterfaceIPforDestination|GetBestInterfaceEx"
    ∷ []

abbrev pub general_rules : List Rule
general_rules =
    rule none (some "ipc") "\\bXPC\\b|PreloginUI|ZSService:\\s*Forwarding"
    ∷ rule none (some "process_trust") "ProcessIDsForPath"
    ∷ rule none (some "auth") "StepUp\\s+A[lI]\\s+token|\\bStepUp\\b"
    ∷ rule none (some "proxy")
        "ZTCPServerConnection|TUN-Proxy|LCL-Proxy|readFromClient|startServerConnection|ServerConnections\\s*=|clt_bytes|srv_bytes|SO_SNDBUF|SO_RCVBUF|Pid for local sock|sock-fd|Disconnecting!|Dropping Https request"
    ∷ rule none (some "process_trust")
        "Signer (?:trust|does not match)|signed by Zscaler|EV sign status|Validating process for PID|ImpersonateLoggedOnUser|CheckWebView2Process|Process (?:Name|executable)\\s*:"
    ∷ rule none (some "service")
        "Getting status for service|Returning service status|SERVICE_(?:RUNNING|STOPPED|PENDING)|service (?:started|starting|stopped|initialized)|ZSAService (?:up|start)|ZCC (?:starting|up)"
    ∷ rule none (some "policy")
        "pacparser|ProxyChoices|ZSAWinProxyUtil|isProxyConfigured|WinHttpGetProxyForUrl|WinHttpDetectAutoProxyConfigUrl|getTunnelBypass|evaluateEnterpriseVpnFailOpen"
    ∷ rule none (some "network") "\\bZFHM\\b|FIREWALL_HEALTH_[A-Z]+"
    ∷ rule none (some "tunnel") "checkTunTcpEchoServerUp|getTunnelStatus"
    ∷ rule none (some "network")
        "AdapterId|Active IPv[46] Range|IP for index|Allowing Src Ip|is not in Ipv6 format"
    ∷ rule none (some "power")
        "Power Change Event|Modern Standby|force_reauth_sleep_trigger|\\bsleep\\b|\\bhibernat|\\bresume(?:d|ing)?\\b|WM_POWERBROADCAST|session (?:lock|unlock)|screen ?(?:lock|saver)"
    ∷ rule none (some "update")
        "\\bupgrade\\b|\\bupdater?\\b|new version|download.*installer|msiexec|\\.pkg\\b|install(?:ing|ed) build"
    ∷ rule none (some "cert")
        "\\bcertificat|\\bcert\\b|getCertExpiryDaySec|X509|\\bCA (?:bundle|store)|pinn?ing|SSL_ERROR|error:1[0-9A-F]{7}|TLS handshake"
    ∷ rule none (some "posture")
        "\\bposture\\b|trust(?:ed)? condition|device (?:trust|compliance)|\\bcompliance\\b|OS version check|disk encryption|antivirus check"
    ∷ rule none (some "dns")
        "\\bDNS\\b|resolveDns|_kerberos\\._tcp|_ldap\\._tcp|_gc\\._tcp|SRV record|getaddrinfo|nslookup|resolver"
    ∷ rule none (some "auth")
        "\\bSAML\\b|\\bIdP\\b|\\bOAuth|\\bJWT\\b|bearer token|\\benroll|authentic|login_hint|loginName|\\bSSO\\b|\\bMFA\\b|credential|AUTHENTICATION_REQUIRED|re-?authent"
    ∷ rule none (some "network")
        "\\badapter\\b|\\binterface\\b|network (?:change|transition|state|type)|trusted[_ ]?network|captive ?portal|\\bgateway\\b|\\broute\\b|\\bWFP\\b|\\bMTU\\b|link (?:up|down)|\\bWi-?Fi\\b|\\bethernet\\b|OFF_TRUSTED|NON_TRUSTED|TRUSTED_NETWORK"
    ∷ rule none (some "policy")
        "TrayPolicy|policy (?:push|update|reload|fetch)|App Profile|appProfile|forwarding ?profile|\\bbypass\\b|policy_name|captivePortalConfig|failOpenPolicy"
    ∷ rule none (some "capture")
        "\\bpcap|packet capture|log ?(?:collect|upload|bundle)|\\bzip\\b|diagnostic bundle|export logs"
    ∷ rule none (some "ipc")
        "\\bIPC\\b|named ?pipe|\\bRPC\\b|socket (?:connect|accept|bind)|message (?:sent|received) to (?:tray|service|tunnel)|sendTrayPolicy|inter-?process"
    ∷ rule none (some "ui")
        "ZSATray Notification|\\bnotificat|\\btoast\\b|\\bdialog\\b|\\btooltip\\b|user (?:clicked|selected|dismissed)|show(?:ing)? (?:popup|banner)"
    ∷ rule none (some "tunnel")
        "\\btunnel\\b|\\bkeepalive\\b|\\bheartbeat\\b|transport (?:select|switch)|\\bTLS\\b|\\bQUIC\\b|reconnect"
    ∷ rule none (some "data")
        "bytes[_ ](?:in|out|sent|received)|\\bthroughput\\b|\\bbandwidth\\b|data (?:sent|received)|\\bRTT\\b|\\blatency\\b"
    ∷ rule none (some "diagnostics")
        "\\bhealth ?check|self ?test|\\btelemetry\\b|\\bmetric|\\bstatistic|memory usage|\\bCPU\\b|performance counter"
    ∷ rule (some "os_platform") none
        "\\bWFP\\b|\\bNDIS\\b|\\bLWF\\b|\\bregistry\\b|HKEY_|\\bdriver\\b|\\bkernel\\b|\\bWMI\\b|\\bnetsh\\b|\\bIOKit\\b|\\bkext\\b|\\bsystem ?extension\\b|launchd|Windows (?:Filtering|Service)"
    ∷ []

abbrev pub rules : List Rule
rules = product_rules ++ general_rules

-- `_COMPONENT_SERVICE_DEFAULT`
abbrev pub component_services : List (String × String)
component_services =
    ("tunnel", "zcc_core") ∷ ("service", "zcc_core") ∷ ("tray", "zcc_core") ∷ ("upm", "zdx") ∷ []

-- `_COMPONENT_SUBSYSTEM_DEFAULT`
abbrev pub component_subsystems : List (String × String)
component_subsystems = ("upm", "diagnostics") ∷ ("tray", "ui") ∷ []

-- `_SHAPE_SUBS`: what is replaced, and by what.
abbrev pub shape_subs : List (String × String)
shape_subs =
    ("[0-9a-fA-F]{8}-[0-9a-fA-F]{4}-[0-9a-fA-F]{4}-[0-9a-fA-F]{4}-[0-9a-fA-F]{12}", "<GUID>")
    ∷ ("\\b(?:\\d{1,3}\\.){3}\\d{1,3}\\b", "<IP>")
    ∷ ("\\b[0-9a-fA-F]{16,}\\b", "<HEX>")
    ∷ ("\\b\\d{4}-\\d{2}-\\d{2}[ T]\\d{2}:\\d{2}:\\d{2}\\S*", "<TS>")
    ∷ ("\\b\\d+\\.\\d+\\.\\d+(?:\\.\\d+)?\\b", "<VER>")
    ∷ ("\"[^\"]*\"", "\"<STR>\"")
    ∷ ("[A-Za-z]:\\\\[^\\s]+", "<PATH>")
    ∷ ("/(?:[\\w.-]+/){2,}[\\w.-]+", "<PATH>")
    ∷ ("\\b\\d+\\b", "<N>")
    ∷ []
