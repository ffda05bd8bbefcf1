-- ===== src/Auth/Bearer.antt =====
-- `bearer_token` of `rust/src/auth.rs`, and a client that follows the documented form.
use mathlib.Core.List.{append_assoc}
use trail_stash.Config.Bounds.{IsSetting}
use trail_stash.Base.{
  ◌↔◌, subst, ℕ, ◌≤◌, ◌≡◌, ◌≢◌, refl, ap, sym, true, false, none, some, [], ◌∷◌, ◌++◌, map, arith,
  All, if◌then◌else◌, is_empty,
}
use trail_stash.Text.{IsText, Text, text, trim, is_whitespace}
use trail_stash.Text.Trim.{trim-append}
use trail_stash.Auth.{
  not, is_allowed, authorize, split_once, to_ascii_lowercase, eq_ignore_ascii_case, bearer_token,
}
use trail_stash.Auth.Compare.{authorize_iff}

split_once-append :
    (sep : ℕ) (front back : Text)
    → All (λ c. c ≢ sep) front
    → split_once sep (front ++ sep ∷ back) ≡ some (front, back)
unfolding split_once
split_once-append sep [] back h = ground arith
split_once-append sep (c ∷ front) back h = ground (arith, split_once-append sep front back h.1)

abbrev IsLower : ℕ → Type 0
IsLower d = (b'a' ≤ d) × (d ≤ b'z')

lower_letter : (c : ℕ) → IsLower (to_ascii_lowercase c) → (is_whitespace c ≡ false) × (c ≢ b' ')
unfolding to_ascii_lowercase is_whitespace
lower_letter c h = (ground arith, ground arith)

no_space : (s t : Text) → map to_ascii_lowercase s ≡ t → All IsLower t → All (λ c. c ≢ b' ') s
no_space [] t e h = tt
no_space (c ∷ s) [] e h = cc
no_space (c ∷ s) (d ∷ t) e h =
    let head : to_ascii_lowercase c ≡ d = ground arith in
    ((lower_letter c (subst IsLower (sym head) h.0)).1, no_space s t (ground arith) h.1)

head_eq : (x y : ℕ) (xs ys : Text) → x ∷ xs ≡ y ∷ ys → x ≡ y
head_eq x y xs ys e = ground arith

kept :
    (token : Text) → token ≢ [] → (if not (is_empty token) then some token else none) ≡ some token
kept [] n = absurd (n refl)
kept (c ∷ s) n = refl

bearer-IsLower : All IsLower (text "bearer")
bearer-IsLower = omega arith

scheme_lower :
    (scheme : Text)
    → eq_ignore_ascii_case scheme (text "bearer") ≡ true
    → map to_ascii_lowercase scheme ≡ text "bearer"
unfolding eq_ignore_ascii_case to_ascii_lowercase
scheme_lower scheme e = ground arith

-- From a header with the scheme in any case, one space and a token without whitespace around it,
-- exactly the token is read.
pub bearer_token_lem :
    (scheme token : Text)
    → eq_ignore_ascii_case scheme (text "bearer") ≡ true
    → trim token ≡ token
    → token ≢ []
    → bearer_token (some (scheme ++ b' ' ∷ token)) ≡ some token
unfolding bearer_token
bearer_token_lem [] token e t n = absurd (cc (scheme_lower [] e))
bearer_token_lem (c ∷ s) token e t n =
    let lower = scheme_lower (c ∷ s) e in
    let letters = no_space (c ∷ s) (text "bearer") lower bearer-IsLower in
    let first : IsLower (to_ascii_lowercase c) =
      subst IsLower (sym (head_eq (to_ascii_lowercase c) b'b' _ _ lower)) (omega arith) in
    let whole : trim (c ∷ s ++ b' ' ∷ token) ≡ c ∷ s ++ b' ' ∷ token =
      rw (← append_assoc s (b' ' ∷ []) token)
        (trim-append c (s ++ b' ' ∷ []) token (lower_letter c first).0 t n) in
    rw (whole, split_once-append b' ' (c ∷ s) token letters, e, t) (kept token n)

-- A client that sends a token in the documented form, with the scheme in any case, is let through
-- exactly if the token is the configured key, where key and token are trimmed, not empty, and of code
-- points.
pub client_is_allowed :
    (psk scheme token : Text)
    → IsSetting psk
    → IsText psk
    → IsSetting token
    → IsText token
    → eq_ignore_ascii_case scheme (text "bearer") ≡ true
    → (is_allowed (authorize (some psk) (bearer_token (some (scheme ++ b' ' ∷ token)))) ≡ true)
      ↔ (token ≡ psk)
client_is_allowed psk scheme token p pt q qt e =
    let ok = authorize_iff (some psk) (some token) pt qt in
    rw (bearer_token_lem scheme token e q.0 q.1)
      (λ h. ground (arith, ok.0 h), λ h. ok.1 (ap some h))
