-- ===== src/LogRedaction/Struck.antt =====
-- What a redacted line of `rust/src/log_redaction.rs` shows, and what it does not.
use trail_stash.Base.{
  ℕ, ◌+◌, ◌≤◌, ◌<◌, ◌≡◌, sym, ap, ◌∙◌, true, ◌⊎◌, Option, some, List, [], ◌∷◌, ◌++◌, Bytes, length,
  all, arith, List-cases, if◌then◌else◌, inl, inr, is_empty,
}
use mathlib.Core.List.{append-nil}
use trail_stash.LogRedaction.{
  Range, is_network_char, is_opaque_char, is_address, is_identity, scan, ranges_of, sort_unstable,
  splice, redact_log_line,
}
use trail_stash.LogRedaction.Cover.{
  covered, uncovered, uncovered_none, flatten, copies, Within, pieces_of, splice-pieces_of,
  copies-pieces_of,
}
use trail_stash.LogRedaction.Sort.{
  covered-sort_unstable, covered-append, uncovered_same, All-sort_unstable, All-append,
  sort_unstable-Sorted, scan-Within,
}
use trail_stash.LogRedaction.Scan.{ends_apart, starts_apart, scan_complete}

ranges_of-Within : (input : Bytes) → Within (length input) (ranges_of input)
unfolding ranges_of
ranges_of-Within input =
    All-append (λ r. (r.0 ≤ r.1) × (r.1 ≤ length input))
      (scan is_network_char is_address 0 [] input) _
      (scan-Within is_network_char is_address (length input) 0 [] input (omega arith))
      (scan-Within is_opaque_char is_identity (length input) 0 [] input (omega arith))

redact_struck :
    (input : Bytes) (r : Range) (ranges : List Range)
    → ranges_of input ≡ r ∷ ranges
    → redact_log_line input ≡ splice input 0 (sort_unstable (ranges_of input))
unfolding redact_log_line
redact_struck input r ranges e =
    ap (λ b. if b then input else splice input 0 (sort_unstable (ranges_of input))) (ap is_empty e)

-- A redacted line is a sequence of marks and of copied bytes, and what is copied is, in order, exactly the bytes of
-- the line that lie in no range that the two loops found.
pub redact_log_line_lem :
    (input : Bytes)
    → (pieces : List (Option Bytes)) × (redact_log_line input ≡ flatten pieces)
      × (copies pieces ≡ uncovered (ranges_of input) 0 input)
unfolding redact_log_line
redact_log_line_lem input = elim (List-cases (ranges_of input)) [
  | inl e ↦ (
    some input ∷ [],
    rw (e, redact_log_line) (sym (append-nil input)),
    rw e (append-nil input ∙ sym (uncovered_none 0 input)),
  )
  | inr (r, ranges, e) ↦
      let sorted = sort_unstable (ranges_of input) in
      (
        pieces_of input 0 sorted,
        redact_struck input r ranges e ∙ splice-pieces_of input 0 sorted,
        copies-pieces_of input 0 sorted (omega arith) (sort_unstable-Sorted (ranges_of input)) (
              All-sort_unstable (λ r. (r.0 ≤ r.1) × (r.1 ≤ length input)) (ranges_of input)
                (ranges_of-Within input))
            ∙ uncovered_same sorted (ranges_of input)
                (λ j. covered-sort_unstable j (ranges_of input)) 0 input,
      )
]

-- Every byte of a maximal run of network characters that is an address, and of a maximal run of opaque characters
-- that is an identity, lies in a range that the two loops found.
pub ranges_of_complete :
    (pre run post : Bytes) (j : ℕ)
    → ((ends_apart is_network_char pre ≡ true)
        × (all is_network_char run ≡ true)
        × (starts_apart is_network_char post ≡ true)
        × (is_address run ≡ true))
      ⊎ ((ends_apart is_opaque_char pre ≡ true)
          × (all is_opaque_char run ≡ true)
          × (starts_apart is_opaque_char post ≡ true)
          × (is_identity run ≡ true))
    → length pre ≤ j
    → j < length pre + length run
    → covered j (ranges_of (pre ++ (run ++ post))) ≡ true
unfolding ranges_of
ranges_of_complete pre run post j (inl (a, b, c, d)) low high =
    let line = pre ++ (run ++ post) in
    ground (
      arith,
      covered-append j (scan is_network_char is_address 0 [] line)
          (scan is_opaque_char is_identity 0 [] line),
      scan_complete is_network_char is_address pre run post j a b c d low high,
    )
ranges_of_complete pre run post j (inr (a, b, c, d)) low high =
    let line = pre ++ (run ++ post) in
    ground (
      arith,
      covered-append j (scan is_network_char is_address 0 [] line)
          (scan is_opaque_char is_identity 0 [] line),
      scan_complete is_opaque_char is_identity pre run post j a b c d low high,
    )
