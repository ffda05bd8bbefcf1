-- ===== src/Api/Register.antt =====
-- What `validate_register` of `rust/src/api.rs` accepts.
use trail_stash.Base.{
  subst, inl, inr, ◌≤◌, ◌≡◌, ◌≢◌, refl, ◌↔◌, true, Option, none, some, [], arith,
}
use trail_stash.Result.{Result-cases, ok}
use trail_stash.Subscriptions.{PushSubscription}
use trail_stash.Text.{Text, len, trim}
use trail_stash.Api.{
  ◌∷◌, is_empty, RegisterRequest, ValidRegister, max_token_len, parse_platform, looks_like_ticket,
  validate_push, validate_register,
}

-- A wake registration, and the token and the platform that ask for it: neither, or a token that is
-- not empty and not too long once trimmed, with a platform that is known.
abbrev pub Asks : Option Text → Option Text → Option PushSubscription → Type 0
Asks none none sub = sub ≡ none
Asks (some token) (some platform) none = ⊥
Asks (some token) (some platform) (some s) =
    (s.token ≡ trim token)
    × (s.token ≢ [])
    × (len s.token ≤ max_token_len)
    × (parse_platform platform ≡ some s.platform)
Asks none (some platform) sub = ⊥
Asks (some token) none sub = ⊥

is_empty_iff : (s : Text) → (is_empty s ≡ true) ↔ (s ≡ [])
is_empty_iff [] = (λ e. refl, λ e. refl)
is_empty_iff (c ∷ s) = (λ e. cc, λ e. cc)

validate_push_sound :
    (token platform : Option Text) (sub : Option PushSubscription)
    → validate_push token platform ≡ ok sub
    → Asks token platform sub
unfolding validate_push
validate_push_sound none none sub h = ground arith
validate_push_sound (some t) (some p) none h = ground arith
validate_push_sound (some t) (some p) (some s) h = ground (arith, is_empty_iff (trim t))
validate_push_sound none (some p) sub h = cc
validate_push_sound (some t) none sub h = cc

validate_push_complete :
    (token platform : Option Text) (sub : Option PushSubscription)
    → Asks token platform sub
    → validate_push token platform ≡ ok sub
unfolding validate_push
validate_push_complete none none sub h = ground arith
validate_push_complete (some t) (some p) none h = absurd h
validate_push_complete (some t) (some p) (some s) h = ground (arith, is_empty_iff (trim t))
validate_push_complete none (some p) sub h = absurd h
validate_push_complete (some t) none sub h = absurd h

-- A registration is accepted exactly when its trimmed ticket looks like one and it asks for no
-- wake-up or properly for one; what is accepted is the trimmed ticket and the trimmed token.
pub validate_register_iff :
    (req : RegisterRequest) (v : ValidRegister)
    → (validate_register req ≡ ok v) ↔ (
        (looks_like_ticket v.read_ticket ≡ true)
        × (v.read_ticket ≡ trim req.read_ticket)
        × Asks req.push_token req.platform v.subscription)
unfolding validate_register
validate_register_iff req v = (
  λ h. elim (Result-cases (validate_push req.push_token req.platform)) [
    | inr (e, push) ↦ absurd (ground arith)
    | inl (sub, push) ↦
        let asks = validate_push_sound req.push_token req.platform sub push in
        let same : sub ≡ v.subscription = ground arith in
        (ground arith, ground arith, subst (Asks req.push_token req.platform) same asks)
  ],
  λ (looks, t, asks).
      let push = validate_push_complete req.push_token req.platform v.subscription asks in
      ground arith,
)
