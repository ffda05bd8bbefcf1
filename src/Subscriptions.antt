-- ===== src/Subscriptions.antt =====
-- `rust/src/subscriptions.rs`: who wants to be woken about which namespace. Each method runs under
-- the mutex, so it is one step on the registry.
pub mod Laws
pub mod History
use trail_stash.Base.{
  ℕ, Bool, true, false, not, Option, none, some, List, [], ◌∷◌, ◌++◌, Bytes, bytes_discrete,
  ℕ_discrete, if◌then◌else◌, is_empty, unwrap_or,
}
use trail_stash.HashMap
use trail_stash.HashMap.{HashMap}
use trail_stash.HashSet
use trail_stash.HashSet.{HashSet}
use trail_stash.Text.{Text}

abbrev pub NamespaceId : Type 0
NamespaceId = Bytes

pub data Platform : Type 0 where
  apns fcm : Platform

-- `Platform::as_str`.
abbrev pub as_str : Platform → Text
as_str apns = b'a' ∷ b'p' ∷ b'n' ∷ b's' ∷ []
as_str fcm = b'f' ∷ b'c' ∷ b'm' ∷ []

pub record PushSubscription : Type 0 where
  pub platform : Platform
  pub token : Text

unfoldable pub subscription_discrete : Discrete PushSubscription
subscription_discrete = hlevel ℕ_discrete

-- ":[REDACTED]"
abbrev pub redacted_suffix : Text
redacted_suffix = b':' ∷ b'[' ∷ b'R' ∷ b'E' ∷ b'D' ∷ b'A' ∷ b'C' ∷ b'T' ∷ b'E' ∷ b'D' ∷ b']' ∷ []

unfoldable pub redacted : PushSubscription → Text
redacted sub = as_str sub.platform ++ redacted_suffix

pub record NamespaceRegistry : Type 0 where
  pub known : HashSet NamespaceId
  pub subs : HashMap NamespaceId (HashSet PushSubscription)

abbrev pub new : NamespaceRegistry
new = record { known = []; subs = [] }

abbrev pub subscribers : NamespaceId → NamespaceRegistry → Option (HashSet PushSubscription)
subscribers ns reg = HashMap.get bytes_discrete ns reg.subs

unfoldable pub add_sub :
    NamespaceId
    → Option PushSubscription
    → HashMap NamespaceId (HashSet PushSubscription)
    → HashMap NamespaceId (HashSet PushSubscription)
add_sub ns none subs = subs
add_sub ns (some sub) subs =
    let set = unwrap_or [] (HashMap.get bytes_discrete ns subs) in
    HashMap.insert bytes_discrete ns (HashSet.insert subscription_discrete sub set).0 subs

unfoldable pub register :
    NamespaceId → Option PushSubscription → NamespaceRegistry → NamespaceRegistry × Bool
register ns sub reg =
    let (known, is_new) = HashSet.insert bytes_discrete ns reg.known in
    (record { known = known; subs = add_sub ns sub reg.subs }, is_new)

unfoldable pub unsubscribe :
    NamespaceId → PushSubscription → NamespaceRegistry → NamespaceRegistry × Bool
unsubscribe ns sub reg = elim (subscribers ns reg) [
  | none ↦ (reg, false)
  | some set ↦
      let (rest, removed) = HashSet.remove subscription_discrete sub set in
      if is_empty rest
      then (record reg { subs = HashMap.remove bytes_discrete ns reg.subs }, removed)
      else (record reg { subs = HashMap.insert bytes_discrete ns rest reg.subs }, removed)
]

unfoldable pub wake_targets : NamespaceId → NamespaceRegistry → List PushSubscription
wake_targets ns reg = unwrap_or [] (subscribers ns reg)

unfoldable pub known_namespaces : NamespaceRegistry → List NamespaceId
known_namespaces reg = reg.known

unfoldable pub is_known : NamespaceId → NamespaceRegistry → Bool
is_known ns reg = HashSet.contains bytes_discrete ns reg.known
