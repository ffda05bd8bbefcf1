-- ===== src/LogRedaction/Stop.antt =====
-- What `rust/src/log_redaction.rs` makes of an address that a full stop follows: the stop is a network
-- character, so it belongs to the candidate, and no address ends with one.
use trail_stash.Base.{
  ℕ, suc, ◌+◌, ◌<◌, ◌≡◌, refl, ap, true, false, [], ◌∷◌, ◌++◌, Bytes, length, all, arith,
  Bool-cases, Option-cases, inl, inr,
}
use trail_stash.LogRedaction.Scan.{scan_rejected, close_run_fails}
use trail_stash.LogRedaction.{
  is_network_char, is_opaque_char, is_address, is_identity, close_run, scan, ranges_of,
  redact_log_line,
}
use trail_stash.Text.Address.{read_ipv4_addr, read_ipv6_addr, is_ip_addr}
use trail_stash.Text.Address.Stops.{
  ends_with_stop, read_ipv4_addr-ends_with_stop, read_ipv6_addr-ends_with_stop, not_all_read,
  is_socket_addr_v4_stop,
}

is_address_stop : (bytes : Bytes) → ends_with_stop bytes ≡ true → is_address bytes ≡ false
unfolding is_address is_ip_addr
is_address_stop bytes h = elim (Option-cases (read_ipv4_addr bytes)) [
  | inl e ↦ ground (
    arith,
    e,
    is_socket_addr_v4_stop bytes h,
    not_all_read (read_ipv6_addr bytes) (λ rest. read_ipv6_addr-ends_with_stop bytes rest h),
  )
  | inr (rest, e) ↦
      ground
        (arith, e, read_ipv4_addr-ends_with_stop bytes rest h e, is_socket_addr_v4_stop bytes h)
]

-- A scan of fewer than 32 bytes finds no identity.
close_run_short : (end : ℕ) (run : Bytes) → length run < 32 → close_run is_identity end run ≡ []
unfolding is_identity
close_run_short end run h = close_run_fails is_identity end run (ground arith)

length-snoc : (run : Bytes) (b : ℕ) → length (run ++ b ∷ []) ≡ suc (length run)
length-snoc [] b = refl
length-snoc (c ∷ run) b = ap suc (length-snoc run b)

scan_short :
    (i : ℕ) (run bytes : Bytes)
    → length run + length bytes < 32
    → scan is_opaque_char is_identity i run bytes ≡ []
unfolding scan
scan_short i run [] h = close_run_short i run (omega arith)
scan_short i run (b ∷ bytes) h = elim (Bool-cases (is_opaque_char b)) [
  | inl e ↦
      rw (e, scan) (scan_short (i + 1) (run ++ b ∷ []) bytes (omega (arith, length-snoc run b)))
  | inr e ↦
      rw (e, scan, close_run_short i run (omega arith)) (scan_short (i + 1) [] bytes (omega arith))
]

-- A line of fewer than 32 network characters that ends with a full stop is left as it is, also if an
-- address stands before the full stop.
pub stopped_address_kept :
    (line : Bytes)
    → all is_network_char line ≡ true
    → ends_with_stop line ≡ true
    → length line < 32
    → redact_log_line line ≡ line
unfolding redact_log_line ranges_of
stopped_address_kept line chars stop short =
    rw
      (
        scan_rejected is_network_char is_address line chars (is_address_stop line stop),
        scan_short 0 [] line (omega arith),
      )
      refl
