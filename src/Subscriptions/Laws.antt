-- ===== src/Subscriptions/Laws.antt =====
-- What the registry of `rust/src/subscriptions.rs` promises.
use trail_stash.Base.{
  ◌≡◌, refl, Bool, true, false, not, ◌||◌, Option, none, some, [], arith, bytes_discrete, ite,
  is_some_and, unwrap_or, Option-cases, inl, inr,
}
use trail_stash.HashMap
use trail_stash.HashMap.{HashMap, get-insert, get-remove}
use trail_stash.HashSet
use trail_stash.HashSet.{HashSet, contains-insert, contains-erase, contains_empty}
use trail_stash.Text.{Text}
use trail_stash.Subscriptions.{
  NamespaceId, PushSubscription, subscription_discrete, NamespaceRegistry, subscribers, add_sub,
  register, unsubscribe, wake_targets, is_known, redacted, Platform,
}

-- Whether the registry would wake a device for a namespace.
abbrev pub wakes : NamespaceId → PushSubscription → NamespaceRegistry → Bool
wakes ns sub reg = HashSet.contains subscription_discrete sub (wake_targets ns reg)

abbrev pub same : Option PushSubscription → PushSubscription → Bool
same o t = is_some_and (λ s. ite (subscription_discrete t s) true false) o

wakes-add_sub :
    (ns : NamespaceId) (sub : Option PushSubscription)
    (subs : HashMap NamespaceId (HashSet PushSubscription)) (ns' : NamespaceId)
    (t : PushSubscription)
    → HashSet.contains subscription_discrete t
        (unwrap_or [] (HashMap.get bytes_discrete ns' (add_sub ns sub subs)))
      ≡ (ite (bytes_discrete ns' ns) (same sub t) false
          || HashSet.contains subscription_discrete t
              (unwrap_or [] (HashMap.get bytes_discrete ns' subs)))
unfolding add_sub HashSet.contains
wakes-add_sub ns none subs ns' t = ground arith
wakes-add_sub ns (some s) subs ns' t =
    let set = unwrap_or [] (HashMap.get bytes_discrete ns subs) in
    ground (
      arith,
      get-insert bytes_discrete ns ns' (HashSet.insert subscription_discrete s set).0 subs,
      contains-insert subscription_discrete s t set,
    )

module _ (ns : NamespaceId) (sub : Option PushSubscription) (reg : NamespaceRegistry)
    (ns' : NamespaceId) (t : PushSubscription) where
  wakes-register :
      wakes ns' t (register ns sub reg).0
      ≡ (ite (bytes_discrete ns' ns) (same sub t) false || wakes ns' t reg)
  unfolding register wake_targets
  wakes-register = wakes-add_sub ns sub reg.subs ns' t

  -- `register` reports whether the namespace is new, makes it known and forgets no other, adds the given
  -- device, if any, to the wake targets of that namespace, and changes no other target.
  pub register_effect :
      ((register ns sub reg).1 ≡ not (is_known ns reg))
      × (is_known ns' (register ns sub reg).0 ≡ ite (bytes_discrete ns' ns) true (is_known ns' reg))
      × (wakes ns' t (register ns sub reg).0
          ≡ (ite (bytes_discrete ns' ns) (same sub t) false || wakes ns' t reg))
  unfolding register is_known HashSet.insert HashSet.contains
  register_effect = (
    ground arith,
    ground (arith, contains-insert bytes_discrete ns ns' reg.known),
    wakes-register,
  )

module _ (ns : NamespaceId) (sub : PushSubscription) (reg : NamespaceRegistry) where
  -- `unsubscribe` reports whether the device was a wake target, removes that target alone, and
  -- leaves every namespace known.
  pub unsubscribe_effect :
      (ns' : NamespaceId) (t : PushSubscription)
      → ((unsubscribe ns sub reg).1 ≡ wakes ns sub reg)
        × ((unsubscribe ns sub reg).0.known ≡ reg.known)
        × (wakes ns' t (unsubscribe ns sub reg).0
            ≡ ite
                (bytes_discrete ns' ns)
                (ite (subscription_discrete t sub) false (wakes ns' t reg))
                (wakes ns' t reg))
  unfolding unsubscribe wake_targets HashSet.remove HashSet.contains
  unsubscribe_effect ns' t = elim (Option-cases (subscribers ns reg)) [
    | inl e ↦ (ground arith, ground arith, ground arith)
    | inr (set, e) ↦
        let rest = HashSet.erase subscription_discrete sub set in
        (
          ground arith,
          ground arith,
          ground (
            arith,
            get-insert bytes_discrete ns ns' rest reg.subs,
            get-remove bytes_discrete ns ns' reg.subs,
            contains-erase subscription_discrete sub t set,
            contains_empty subscription_discrete t rest,
          ),
        )
  ]

-- The rendering of a subscription for the log depends on the platform alone.
pub redacted_blind :
    (p : Platform) (token token' : Text)
    → redacted (record { platform = p; token = token })
      ≡ redacted (record { platform = p; token = token' })
unfolding redacted
redacted_blind p token token' = refl
