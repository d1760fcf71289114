-- ===== src/Packet/Signals/Laws.antt =====
-- Each test of a packet keeps the sums.
use zcc_analysis.Common.{
  ℕ, ◌+◌, ◌%◌, ◌^◌, ◌≡◌, refl, arith, Bool, true, false, Option, none, some, List, [], ◌∷◌, length,
  ltb, leb, ◌==◌, if◌then◌else◌, Str, ◌||◌,
}
use zcc_analysis.Common.Outcome.{ok, ◌>>=◌}
use zcc_analysis.Packet.Bytes.{Bytes, Read, byte}
use zcc_analysis.Packet.Reads.{IsRead, ok-IsRead, >>=-IsRead, if-IsRead, byte-IsRead}
use zcc_analysis.Packet.Frames.{tcp, udp, Address}
use zcc_analysis.Packet.Full.{Parsed, extract_tcp_seq}
use zcc_analysis.Packet.Names.{parse_dns_qname}
use zcc_analysis.Packet.Names.Bounds.{parse_dns_qname-ends}
use zcc_analysis.Packet.Answers.{parse_dns_response, parse_dns_address_answers}
use zcc_analysis.Packet.Answers.Sound.{parse_dns_response-IsRead, parse_dns_address_answers-IsRead}
use zcc_analysis.Packet.Text.{has_bit}
use zcc_analysis.Packet.Tls.{format_tls_alert, parse_tls_alert, parse_tls_sni}
use zcc_analysis.Common.Counters.{sum-add}
use zcc_analysis.Packet.Summary.{Summary, watermark, set_watermark}
use zcc_analysis.Packet.Signals.{
  count_reset, count_handshake, check_watermark, count_retransmit, count_alert, count_sni,
  payload_signals, tcp_signals, count_query, count_failure, note_answers, dns_signals, signals,
  reset_key, src_endpoint, dst_endpoint, server_endpoint,
}
use zcc_analysis.Packet.Signals.Sums.{Tally, IsSound, length-set_watermark}

module _ (format_ipv6 : Bytes → Str) where
  if-IsSound :
      {n : Tally} (b : Bool) (s t : Summary)
      → IsSound n s
      → IsSound n t
      → IsSound n (if b then s else t)
  if-IsSound true s t h k = h
  if-IsSound false s t h k = k

  count_reset-IsSound :
      {n : Tally} (p : Parsed) (s : Summary) → IsSound n s → IsSound n (count_reset format_ipv6 p s)
  unfolding count_reset
  count_reset-IsSound p s (h, c, e) =
      let one = sum-add s.tcp_resets (reset_key format_ipv6 p) 1 in
      let two = sum-add s.tcp_reset_endpoints (server_endpoint format_ipv6 p) 1 in
      if-IsSound (has_bit p.flags 4) _ _ (h, (c.0, c.1, omega (arith, one, two, c.2), c.3, c.4), e)
        (h, c, e)

  count_handshake-IsSound :
      {n : Tally} (p : Parsed) (s : Summary)
      → IsSound n s
      → IsSound n (count_handshake format_ipv6 p s)
  unfolding count_handshake
  count_handshake-IsSound p s h =
      if-IsSound (has_bit p.flags 2) _ _ (if-IsSound (has_bit p.flags 16) _ _ h h) h

  check_watermark-IsSound :
      {n : Tally} (seq_end : ℕ) (wm : Option ℕ) (p : Parsed) (s : Summary)
      → watermark s.seq_watermark (src_endpoint format_ipv6 p) (dst_endpoint format_ipv6 p) ≡ wm
      → IsSound n s
      → IsSound n (check_watermark format_ipv6 seq_end wm p s)
  unfolding check_watermark
  check_watermark-IsSound {n = n} seq_end none p s w (h, c, e) =
      let marks =
        length-set_watermark s.seq_watermark (src_endpoint format_ipv6 p)
          (dst_endpoint format_ipv6 p) seq_end in
      elim (ltb (length s.seq_watermark) 10_000)
          as (λ b.
            ltb (length s.seq_watermark) 10_000 ≡ b
            → IsSound n (
                if b
                then record s {
                  seq_watermark =
                      set_watermark s.seq_watermark (src_endpoint format_ipv6 p)
                        (dst_endpoint format_ipv6 p) seq_end;
                }
                else s)) [
                  | true ↦ λ room. (h, (c.0, c.1, c.2, c.3, ground (arith, room, marks.0)), e)
                  | false ↦ λ full. (h, c, e)
                ]
        refl
  check_watermark-IsSound {n = n} seq_end (some wm) p s w (h, c, e) =
      let marks =
        length-set_watermark s.seq_watermark (src_endpoint format_ipv6 p)
          (dst_endpoint format_ipv6 p) seq_end in
      let same = marks.1 (λ k. cc) in
      if-IsSound (leb seq_end wm) _ _ (h, c, e)
        (h, (c.0, c.1, c.2, c.3, omega (arith, same, c.4)), e)

  count_retransmit-IsSound :
      {n : Tally} (frame : Bytes) (p : Parsed) (s : Summary)
      → IsSound n s
      → IsSound n (count_retransmit format_ipv6 frame p s)
  unfolding count_retransmit
  count_retransmit-IsSound {n = n} frame p s h =
      let mark =
        watermark s.seq_watermark (src_endpoint format_ipv6 p) (dst_endpoint format_ipv6 p) in
      elim (extract_tcp_seq frame)
        as (λ o. IsSound n (elim o [
          | none ↦ s
          | some seq ↦ check_watermark format_ipv6 ((seq + length p.payload) % 2 ^ 32) mark p s
        ])) [
          | none ↦ h
          | some seq ↦ check_watermark-IsSound ((seq + length p.payload) % 2 ^ 32) mark p s refl h
        ]

  count_alert-IsSound :
      {n : Tally} (alert : Option (ℕ × ℕ)) (p : Parsed) (s : Summary)
      → IsSound n s
      → IsSound n (count_alert format_ipv6 alert p s)
  unfolding count_alert
  count_alert-IsSound none p s h = h
  count_alert-IsSound (some (level, desc)) p s (h, c, e) =
      let one = sum-add s.tls_alerts (format_tls_alert level desc) 1 in
      let two = sum-add s.tls_alert_endpoints (server_endpoint format_ipv6 p) 1 in
      (h, (c.0, c.1, c.2, omega (arith, one, two, c.3), c.4), e)

  count_sni-IsSound :
      {n : Tally} (sni : Option Str) (p : Parsed) (s : Summary)
      → IsSound n s
      → IsSound n (count_sni format_ipv6 sni p s)
  unfolding count_sni
  count_sni-IsSound none p s h = h
  count_sni-IsSound (some []) p s h = h
  count_sni-IsSound (some (c ∷ sni)) p s h = h

  count_query-IsSound :
      {n : Tally} (q : Option Str) (s : Summary)
      → IsSound n s
      → IsSound n (count_query format_ipv6 q s)
  unfolding count_query
  count_query-IsSound none s h = h
  count_query-IsSound (some []) s h = h
  count_query-IsSound (some (c ∷ q)) s h = h

  count_failure-IsSound :
      {n : Tally} (resp : Option (ℕ × Str)) (s : Summary)
      → IsSound n s
      → IsSound n (count_failure format_ipv6 resp s)
  unfolding count_failure
  count_failure-IsSound none s h = h
  count_failure-IsSound (some (rcode, [])) s h = h
  count_failure-IsSound (some (rcode, c ∷ q)) s h = if-IsSound (rcode == 0) _ _ h h

  note_answers-IsSound :
      {n : Tally} (answers : List (Str × Address)) (s : Summary)
      → IsSound n s
      → IsSound n (note_answers format_ipv6 answers s)
  unfolding note_answers
  note_answers-IsSound [] s h = h
  note_answers-IsSound ((q, a) ∷ answers) s h = note_answers-IsSound answers _ h

  -- A read that gives a sound state.
  abbrev pub Gives : Tally → Read Summary → Type 0
  Gives n m = (t : Summary) × (m ≡ ok t) × IsSound n t

  if-Gives :
      {n : Tally} (b : Bool) (k l : Read Summary)
      → Gives n k
      → (b ≡ false → Gives n l)
      → Gives n (if b then k else l)
  if-Gives true k l h g = h
  if-Gives false k l h g = g refl

  >>=-Gives :
      {n : Tally} {A : Type 0} (m : Read A) (f : A → Read Summary)
      → IsRead m
      → ((a : A) → Gives n (f a))
      → Gives n (m >>= f)
  >>=-Gives m f h k = rw h.1 (k h.0)

  parse_tls_alert-IsRead : (b : Bytes) → IsRead (parse_tls_alert b)
  unfolding parse_tls_alert
  parse_tls_alert-IsRead b =
      if-IsRead (ltb (length b) 7) _ _ (λ e. ok-IsRead none)
        (λ long. >>=-IsRead (byte b 0) _ (byte-IsRead b 0 (ground (arith, long))) (λ content.
          >>=-IsRead (byte b 1) _ (byte-IsRead b 1 (ground (arith, long))) (λ major.
            >>=-IsRead (byte b 5) _ (byte-IsRead b 5 (ground (arith, long))) (λ level.
              >>=-IsRead (byte b 6) _ (byte-IsRead b 6 (ground (arith, long)))
                (λ description. ok-IsRead _)))))

  payload_signals-Gives :
      {n : Tally} (frame : Bytes) (p : Parsed) (s : Summary)
      → IsSound n s
      → Gives n (payload_signals format_ipv6 frame p s)
  unfolding payload_signals
  payload_signals-Gives frame p s h =
      >>=-Gives (parse_tls_alert p.payload) _ (parse_tls_alert-IsRead p.payload) (λ alert.
        let before = count_retransmit format_ipv6 frame p s in
        let alerted = count_alert format_ipv6 alert p before in
        let named = count_sni format_ipv6 (parse_tls_sni p.payload) p alerted in
        let sound = count_alert-IsSound alert p before (count_retransmit-IsSound frame p s h) in
        (
          if p.dst_port == 443 then named else alerted,
          refl,
          if-IsSound (p.dst_port == 443) named alerted
              (count_sni-IsSound (parse_tls_sni p.payload) p alerted sound) sound,
        ))

  tcp_signals-Gives :
      {n : Tally} (frame : Bytes) (p : Parsed) (s : Summary)
      → IsSound n s
      → Gives n (tcp_signals format_ipv6 frame p s)
  unfolding tcp_signals
  tcp_signals-Gives frame p s h =
      let reset = count_reset format_ipv6 p s in
      let flagged = count_handshake format_ipv6 p reset in
      let sound = count_handshake-IsSound p reset (count_reset-IsSound p s h) in
      if-Gives (length p.payload == 0) (ok flagged) (payload_signals format_ipv6 frame p flagged)
        (flagged, refl, sound) (λ some_bytes. payload_signals-Gives frame p flagged sound)

  dns_signals-Gives :
      {n : Tally} (p : Parsed) (s : Summary) → IsSound n s → Gives n (dns_signals format_ipv6 p s)
  unfolding dns_signals parse_dns_response
  dns_signals-Gives p s h =
      >>=-Gives (parse_dns_qname p.payload) _ (parse_dns_qname-ends p.payload) (λ q.
        >>=-Gives (parse_dns_response p.payload) _ (parse_dns_response-IsRead p.payload) (λ resp.
          >>=-Gives (parse_dns_address_answers p.payload) _
            (parse_dns_address_answers-IsRead p.payload)
            (λ answers. (
              _,
              refl,
              note_answers-IsSound answers _
                  (count_failure-IsSound resp _ (count_query-IsSound q s h)),
            ))))

  pub signals-Gives :
      {n : Tally} (frame : Bytes) (p : Parsed) (s : Summary)
      → IsSound n s
      → Gives n (signals format_ipv6 frame p s)
  unfolding signals
  signals-Gives {n = n} frame p s h =
      elim p.proto
        as (λ k. Gives n (elim k [
          | tcp ↦ tcp_signals format_ipv6 frame p s
          | udp ↦ if p.dst_port == 53 || p.src_port == 53 then dns_signals format_ipv6 p s else ok s
        ])) [
          | tcp ↦ tcp_signals-Gives frame p s h
          | udp ↦
              if-Gives (p.dst_port == 53 || p.src_port == 53) _ _ (dns_signals-Gives p s h)
                (λ e. (s, refl, h))
        ]
