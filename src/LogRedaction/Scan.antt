-- ===== src/LogRedaction/Scan.antt =====
-- The loops of `rust/src/log_redaction.rs` find every candidate that passes.
use trail_stash.Base.{
  false, ℕ, ◌+◌, ◌-◌, ◌≤◌, ◌<◌, ◌≡◌, sym, ap, ap₂, ◌∙◌, Bool, true, not, [], ◌∷◌, ◌++◌, Bytes,
  length, all, arith, Bool-cases, inl, inr,
}
use mathlib.Core.List.{append_assoc, append-nil}
use trail_stash.LogRedaction.{close_run, scan}
use trail_stash.LogRedaction.Cover.{covered}
use trail_stash.LogRedaction.Sort.{covered-append}

module _ (is_char : ℕ → Bool) where
  -- Bytes after which no candidate goes on, and before which none does.
  abbrev pub ends_apart : Bytes → Bool
  ends_apart [] = true
  ends_apart (c ∷ []) = not (is_char c)
  ends_apart (c ∷ d ∷ bytes) = ends_apart (d ∷ bytes)

  abbrev pub starts_apart : Bytes → Bool
  starts_apart [] = true
  starts_apart (c ∷ bytes) = not (is_char c)

  module _ (test : Bytes → Bool) where
    pub scan_run :
        (i : ℕ) (acc run post : Bytes)
        → all is_char run ≡ true
        → scan is_char test i acc (run ++ post)
          ≡ scan is_char test (i + length run) (acc ++ run) post
    unfolding scan
    scan_run i acc [] post h =
        ap₂ (λ k a. scan is_char test k a post) (omega arith) (sym (append-nil acc))
    scan_run i acc (b ∷ run) post h = elim (Bool-cases (is_char b)) [
      | inr e ↦ absurd (ground arith)
      | inl e ↦
          rw (e, scan)
            (scan_run (i + 1) (acc ++ b ∷ []) run post (ground arith)
              ∙ ap₂ (λ k a. scan is_char test k a post) (omega arith)
                  (append_assoc acc (b ∷ []) run))
    ]

    covered_closed :
        (end j : ℕ) (run : Bytes)
        → test run ≡ true
        → length run ≤ end
        → end - length run ≤ j
        → j < end
        → covered j (close_run test end run) ≡ true
    unfolding close_run
    covered_closed end j [] t small h k = absurd (omega arith)
    covered_closed end j (b ∷ run) t small h k = rw (t, close_run) (ground arith)

    -- What a later part of the line yields, the whole line yields.
    covered_later :
        (i : ℕ) (acc : Bytes) (c : ℕ) (pre post : Bytes) (j : ℕ)
        → ends_apart (c ∷ pre) ≡ true
        → covered j (scan is_char test (i + length (c ∷ pre)) [] post) ≡ true
        → covered j (scan is_char test i acc (c ∷ pre ++ post)) ≡ true
    unfolding scan
    covered_later i acc c [] post j apart h = elim (Bool-cases (is_char c)) [
      | inl e ↦ absurd (ground arith)
      | inr e ↦
          rw (e, scan)
            (ground (
              arith,
              h,
              covered-append j (close_run test i acc) (scan is_char test (i + 1) [] post),
            ))
    ]
    covered_later i acc c (d ∷ pre) post j apart h =
        let h' : covered j (scan is_char test (i + 1 + length (d ∷ pre)) [] post) ≡ true =
          ap (λ k. covered j (scan is_char test k [] post)) (omega arith) ∙ h in
        elim (Bool-cases (is_char c)) [
          | inl e ↦ rw (e, scan) (covered_later (i + 1) (acc ++ c ∷ []) d pre post j apart h')
          | inr e ↦
              rw (e, scan)
                (ground (
                  arith,
                  covered_later (i + 1) [] d pre post j apart h',
                  covered-append j (close_run test i acc)
                      (scan is_char test (i + 1) [] (d ∷ pre ++ post)),
                ))
        ]

    covered_first :
        (i : ℕ) (run post : Bytes) (j : ℕ)
        → all is_char run ≡ true
        → starts_apart post ≡ true
        → test run ≡ true
        → i ≤ j
        → j < i + length run
        → covered j (scan is_char test i [] (run ++ post)) ≡ true
    unfolding scan
    covered_first i run post j chars apart passes low high =
        ap (covered j) (scan_run i [] run post chars) ∙ at_end post apart
      where
        at_end :
            (rest : Bytes)
            → starts_apart rest ≡ true
            → covered j (scan is_char test (i + length run) run rest) ≡ true
        at_end [] h = covered_closed (i + length run) j run passes (omega arith) (omega arith) high
        at_end (c ∷ rest) h = elim (Bool-cases (is_char c)) [
          | inl e ↦ absurd (ground arith)
          | inr e ↦
              rw (e, scan)
                (ground (
                  arith,
                  covered-append j (close_run test (i + length run) run)
                      (scan is_char test (i + length run + 1) [] rest),
                  covered_closed (i + length run) j run passes (omega arith) (omega arith) high,
                ))
        ]

    -- Every position of a maximal candidate that passes the test lies in a range of the loop.
    pub scan_complete :
        (pre run post : Bytes) (j : ℕ)
        → ends_apart pre ≡ true
        → all is_char run ≡ true
        → starts_apart post ≡ true
        → test run ≡ true
        → length pre ≤ j
        → j < length pre + length run
        → covered j (scan is_char test 0 [] (pre ++ (run ++ post))) ≡ true
    scan_complete [] run post j before chars apart passes low high =
        covered_first 0 run post j chars apart passes low (omega arith)
    scan_complete (c ∷ pre) run post j before chars apart passes low high =
        covered_later 0 [] c pre (run ++ post) j before (
          covered_first (0 + length (c ∷ pre)) run post j chars apart passes (omega arith)
            (omega arith))

pub close_run_fails :
    (test : Bytes → Bool) (end : ℕ) (run : Bytes) → test run ≡ false → close_run test end run ≡ []
unfolding close_run
close_run_fails test end [] e = λ i. []
close_run_fails test end (b ∷ run) e = ground arith

-- One run that does not pass yields no range.
pub scan_rejected :
    (is_char : ℕ → Bool) (test : Bytes → Bool) (bytes : Bytes)
    → all is_char bytes ≡ true
    → test bytes ≡ false
    → scan is_char test 0 [] bytes ≡ []
unfolding scan
scan_rejected is_char test bytes chars fails =
    ap (scan is_char test 0 []) (sym (append-nil bytes))
    ∙ scan_run is_char test 0 [] bytes [] chars
    ∙ close_run_fails test _ bytes fails
