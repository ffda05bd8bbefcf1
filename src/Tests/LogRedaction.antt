-- ===== src/Tests/LogRedaction.antt =====
-- The theorems on `rust/src/log_redaction.rs` and `rust/src/telemetry.rs` at concrete inputs.
use trail_stash.Base.{all, ◌≡◌, refl, true, inl, Option, List, ◌++◌, Bytes, arith}
use trail_stash.LogRedaction.{ranges_of, redact_log_line, is_network_char, is_address}
use trail_stash.LogRedaction.Cover.{covered, uncovered, flatten, copies}
use trail_stash.LogRedaction.Scan.{ends_apart, starts_apart}
use trail_stash.LogRedaction.Struck.{redact_log_line_lem, ranges_of_complete}
use trail_stash.LogRedaction.Stop.{stopped_address_kept}
use trail_stash.Text.{text}
use trail_stash.Text.Address.{
  is_ip_addr, is_socket_addr_v4, read_ipv4_addr, read_octet, read_number, read_digits, separated,
  given, to_decimal,
}
use trail_stash.Text.Hex.{to_digit}

abbrev line : Bytes
line = text "peer 10.0.0.1 up"

redact_log_line_lem_example :
    (pieces : List (Option Bytes)) × (redact_log_line line ≡ flatten pieces)
    × (copies pieces ≡ uncovered (ranges_of line) 0 line)
redact_log_line_lem_example = redact_log_line_lem line

spaced : ends_apart is_network_char (text "peer ") ≡ true
unfolding is_network_char
spaced = refl

digits : all is_network_char (text "10.0.0.1") ≡ true
unfolding is_network_char
digits = refl

spaced_after : starts_apart is_network_char (text " up") ≡ true
unfolding is_network_char
spaced_after = refl

an_address : is_address (text "10.0.0.1") ≡ true
unfolding is_address is_ip_addr is_socket_addr_v4 read_ipv4_addr read_octet read_number read_digits
    separated given to_decimal to_digit
an_address = refl

ranges_of_complete_example :
    covered 6 (ranges_of (text "peer " ++ (text "10.0.0.1" ++ text " up"))) ≡ true
ranges_of_complete_example =
    ranges_of_complete (text "peer ") (text "10.0.0.1") (text " up") 6
      (inl (spaced, digits, spaced_after, an_address)) (omega arith) (omega arith)

abbrev sentence : Bytes
sentence = text "10.0.0.1."

sentence_chars : all is_network_char sentence ≡ true
unfolding is_network_char
sentence_chars = refl

stopped_address_kept_example : redact_log_line sentence ≡ sentence
stopped_address_kept_example = stopped_address_kept sentence sentence_chars refl (omega arith)
