-- ===== src/Subscriptions/History.antt =====
-- Any sequence of calls on a registry (`rust/src/subscriptions.rs`), against the calls themselves: who is registered,
-- with no map and no set.
use trail_stash.HashMap.{get-remove, get-insert}
use trail_stash.Base.{
  ap, ◌∙◌, none, inr, unwrap_or, inl, some, is_empty, ap₂, Option-cases, ltb, max, ℕ, suc, ◌≡◌,
  refl, Bool, true, false, not, Option, List, [], ◌∷◌, arith, bytes_discrete, ite, if◌then◌else◌,
}
use trail_stash.HashMap
use trail_stash.HashSet
use trail_stash.HashSet.{HashSet}
use trail_stash.Subscriptions
use trail_stash.Subscriptions.{
  apns, NamespaceId, PushSubscription, subscription_discrete, NamespaceRegistry, new, subscribers,
  add_sub, is_known, wake_targets,
}
use trail_stash.Subscriptions.Laws.{unsubscribe_effect, register_effect, same}

pub data Op : Type 0 where
  register : NamespaceId → Option PushSubscription → Op
  unsubscribe : NamespaceId → PushSubscription → Op

unfoldable pub apply : Op → NamespaceRegistry → NamespaceRegistry × Bool
apply (register ns sub) reg = Subscriptions.register ns sub reg
apply (unsubscribe ns sub) reg = Subscriptions.unsubscribe ns sub reg

-- The registry after the calls, and what each of them returns.
unfoldable pub run : List Op → NamespaceRegistry → NamespaceRegistry × List Bool
run [] reg = (reg, [])
run (op ∷ ops) reg =
    let (reg', answer) = apply op reg in
    let (reg'', answers) = run ops reg' in (reg'', answer ∷ answers)

-- The registrations as two functions.
pub record Registered : Type 0 where
  pub known : NamespaceId → Bool
  pub wakes : NamespaceId → PushSubscription → Bool

abbrev pub nobody : Registered
nobody = record { known = λ ns. false; wakes = λ ns sub. false }

abbrev pub replay_one : Op → Registered → Registered × Bool
replay_one (register ns sub) r = (
  record {
    known = λ ns'. ite (bytes_discrete ns' ns) true (r.known ns');
    wakes = λ ns' t.
        ite (bytes_discrete ns' ns) (if same sub t then true else r.wakes ns' t) (r.wakes ns' t);
  },
  not (r.known ns),
)
replay_one (unsubscribe ns sub) r = (
  record r {
    wakes = λ ns' t.
        ite (bytes_discrete ns' ns) (ite (subscription_discrete t sub) false (r.wakes ns' t))
          (r.wakes ns' t);
  },
  r.wakes ns sub,
)

unfoldable pub replay : List Op → Registered → Registered × List Bool
replay [] r = (r, [])
replay (op ∷ ops) r =
    let (r', answer) = replay_one op r in
    let (r'', answers) = replay ops r' in (r'', answer ∷ answers)

-- How often a device is among the targets.
abbrev pub count_targets : PushSubscription → List PushSubscription → ℕ
count_targets t [] = 0
count_targets t (sub ∷ targets) =
    let rest = count_targets t targets in ite (subscription_discrete t sub) (suc rest) rest

-- The registry says what the registrations say, and targets each device once.
pub record Shows (reg : NamespaceRegistry) (r : Registered) : Type 0 where
  pub known : (ns : NamespaceId) → is_known ns reg ≡ r.known ns
  pub targets :
      (ns : NamespaceId) (t : PushSubscription)
      → count_targets t (wake_targets ns reg) ≡ (if r.wakes ns t then 1 else 0)

count_targets-insert :
    (sub t : PushSubscription) (set : HashSet PushSubscription)
    → count_targets t (HashSet.insert subscription_discrete sub set).0 ≡ (
        if HashSet.contains subscription_discrete sub set
        then count_targets t set
        else ite (subscription_discrete t sub) (suc (count_targets t set)) (count_targets t set))
unfolding HashSet.insert
count_targets-insert sub t set = ground arith

count_targets-erase :
    (sub t : PushSubscription) (set : HashSet PushSubscription)
    → count_targets t (HashSet.erase subscription_discrete sub set)
      ≡ ite (subscription_discrete t sub) 0 (count_targets t set)
unfolding HashSet.erase
count_targets-erase sub t [] = ground arith
count_targets-erase sub t (k ∷ set) = ground (arith, count_targets-erase sub t set)

contains-count_targets :
    (t : PushSubscription) (set : HashSet PushSubscription)
    → HashSet.contains subscription_discrete t set ≡ ltb 0 (count_targets t set)
unfolding HashSet.contains
contains-count_targets t [] = refl
contains-count_targets t (k ∷ set) = ground (arith, contains-count_targets t set)

count_targets_empty :
    (t : PushSubscription) (set : HashSet PushSubscription)
    → is_empty set ≡ true
    → count_targets t set ≡ 0
count_targets_empty t [] e = refl
count_targets_empty t (k ∷ set) e = cc

count_targets-register :
    (ns : NamespaceId) (sub : Option PushSubscription) (reg : NamespaceRegistry) (ns' : NamespaceId)
    (t : PushSubscription)
    → count_targets t (wake_targets ns' (Subscriptions.register ns sub reg).0)
      ≡ ite
          (bytes_discrete ns' ns)
          (if same sub t
            then max 1 (count_targets t (wake_targets ns' reg))
            else count_targets t (wake_targets ns' reg))
          (count_targets t (wake_targets ns' reg))
unfolding Subscriptions.register add_sub wake_targets
count_targets-register ns none reg ns' t = ground arith
count_targets-register ns (some s) reg ns' t =
    let set = unwrap_or [] (subscribers ns reg) in
    ground (
      arith,
      get-insert bytes_discrete ns ns' (HashSet.insert subscription_discrete s set).0 reg.subs,
      count_targets-insert s t set,
      contains-count_targets s set,
    )

count_targets-unsubscribe :
    (ns : NamespaceId) (sub : PushSubscription) (reg : NamespaceRegistry) (ns' : NamespaceId)
    (t : PushSubscription)
    → count_targets t (wake_targets ns' (Subscriptions.unsubscribe ns sub reg).0)
      ≡ ite
          (bytes_discrete ns' ns)
          (ite (subscription_discrete t sub) 0 (count_targets t (wake_targets ns' reg)))
          (count_targets t (wake_targets ns' reg))
unfolding Subscriptions.unsubscribe wake_targets HashSet.remove
count_targets-unsubscribe ns sub reg ns' t = elim (Option-cases (subscribers ns reg)) [
  | inl e ↦ ground arith
  | inr (set, e) ↦
      let rest = HashSet.erase subscription_discrete sub set in
      ground (
        arith,
        get-insert bytes_discrete ns ns' rest reg.subs,
        get-remove bytes_discrete ns ns' reg.subs,
        count_targets-erase sub t set,
        count_targets_empty t rest,
      )
]

abbrev pub any_target : PushSubscription
any_target = record { platform = apns; token = [] }

apply-Shows :
    (op : Op) (reg : NamespaceRegistry) (r : Registered)
    → Shows reg r
    → Shows (apply op reg).0 (replay_one op r).0 × ((apply op reg).1 ≡ (replay_one op r).1)
unfolding apply is_known
apply-Shows (register ns sub) reg r s = (
  record {
    known = λ ns'. ground (arith, (register_effect ns sub reg ns' any_target).1, s.known ns');
    targets = λ ns' t. ground (arith, count_targets-register ns sub reg ns' t, s.targets ns' t);
  },
  ground (arith, (register_effect ns sub reg ns any_target).0, s.known ns),
)
apply-Shows (unsubscribe ns sub) reg r s =
    let (answer, kept, _) = unsubscribe_effect ns sub reg ns sub in
    (
      record {
        known = λ ns'. ap (HashSet.contains bytes_discrete ns') kept ∙ s.known ns';
        targets =
            λ ns' t. ground (arith, count_targets-unsubscribe ns sub reg ns' t, s.targets ns' t);
      },
      ground (arith, answer, contains-count_targets sub (wake_targets ns reg), s.targets ns sub),
    )

run-Shows :
    (ops : List Op) (reg : NamespaceRegistry) (r : Registered)
    → Shows reg r
    → Shows (run ops reg).0 (replay ops r).0 × ((run ops reg).1 ≡ (replay ops r).1)
unfolding run replay
run-Shows [] reg r s = (s, refl)
run-Shows (op ∷ ops) reg r s =
    let (s', answer) = apply-Shows op reg r s in
    let (s'', answers) = run-Shows ops (apply op reg).0 (replay_one op r).0 s' in
    (s'', ap₂ (λ x xs. x ∷ xs) answer answers)

new-Shows : Shows new nobody
unfolding is_known wake_targets HashSet.contains HashMap.get
new-Shows = record { known = λ ns. refl; targets = λ ns t. refl }

-- After any calls on a new registry a namespace is known exactly if it was registered, a device is among the wake
-- targets of a namespace exactly once if it was registered for it and has not unsubscribed since, and not at all
-- otherwise; and every call of `register` says whether its namespace was new, every call of `unsubscribe` whether
-- its device was registered.
pub registrations_refine :
    (ops : List Op)
    → Shows (run ops new).0 (replay ops nobody).0 × ((run ops new).1 ≡ (replay ops nobody).1)
registrations_refine ops = run-Shows ops new nobody new-Shows
