-- ===== src/Content/Laws.antt =====
-- What a client of `ContentIndex` (`rust/src/content.rs`) can rely on.
use trail_stash.Base.{
  ◌≡◌, sym, ◌∙◌, ◌↔◌, true, false, ◌&&◌, [], inl, inr, arith, bytes_discrete, ite, Bool-cases,
  unwrap_or,
}
use trail_stash.HashMap.{HashMap, get-insert}
use trail_stash.HashMap.Distinct.{Distinct, any-values, any-values-get}
use trail_stash.HashSet
use trail_stash.HashSet.{HashSet, contains-insert}
use trail_stash.Content.{
  ContentIndex, present, ContentHash, NamespaceId, lookup_state, lookup_set, names, want,
  mark_present, is_tracked, is_tracked_for, is_present, drop_reference, still_referenced, forget,
}
use trail_stash.Content.Invariant.{
  IsValid, names_in, drop_reference-Distinct, names_in-drop_reference, get-or_wanted,
}
use trail_stash.Content.Forget.{forget-sets, forget-result, get_state-forget}

any-names :
    (ns : NamespaceId) (h : ContentHash) (m : HashMap NamespaceId (HashSet ContentHash))
    → Distinct bytes_discrete m
    → names_in ns h m ≡ true
    → still_referenced h m ≡ true
any-names ns h m d e = ground (arith, any-values bytes_discrete (names h) ns m d)

-- In a valid index a hash is tracked exactly when some namespace references it.
pub is_tracked_iff :
    (h : ContentHash) (index : ContentIndex)
    → IsValid index
    → (is_tracked h index ≡ true) ↔ ((ns : NamespaceId) × (is_tracked_for ns h index ≡ true))
unfolding is_tracked_for
is_tracked_iff h index v = (
  λ e.
      any-values-get bytes_discrete (names h) index.by_namespace v.distinct_sets
        (sym (v.agree h) ∙ e),
  λ (ns, e). v.agree h ∙ any-names ns h index.by_namespace v.distinct_sets e,
)

-- On a valid index `forget` reports a release exactly when the namespace referenced the hash and no
-- other namespace did.
pub forget_last_iff :
    (ns : NamespaceId) (hash : ContentHash) (index : ContentIndex)
    → IsValid index
    → ((forget ns hash index).1 ≡ true) ↔ (
        (is_tracked_for ns hash index ≡ true)
        × ((ns' : NamespaceId) → is_tracked_for ns' hash index ≡ true → ns' ≡ ns))
unfolding is_tracked_for
forget_last_iff ns hash index v =
    let m = index.by_namespace in
    let rest = (drop_reference ns hash m).0 in
    let d = drop_reference-Distinct ns hash m v.distinct_sets in
    (
      λ e. (
        ground (arith, forget-result ns hash index),
        λ ns' named. elim (bytes_discrete ns' ns) [
          | yes p ↦ p
          | no p ↦ absurd (
              ground (
                arith,
                forget-result ns hash index,
                any-names ns' hash rest d,
                names_in-drop_reference ns hash m ns' hash,
              ))
        ],
      ),
      λ (named, only). elim (Bool-cases (still_referenced hash rest)) [
        | inl still ↦
            let (k, found) = any-values-get bytes_discrete (names hash) rest d still in
            absurd (ground (arith, only k, names_in-drop_reference ns hash m k hash))
        | inr gone ↦ ground (arith, forget-result ns hash index)
      ],
    )

-- After `forget` on a valid index the namespace no longer references the hash, every other reference
-- is as it was, and a hash counts as present exactly if it did and is still tracked.
pub forget_effect :
    (ns : NamespaceId) (hash : ContentHash) (index : ContentIndex) (ns' : NamespaceId)
    (h : ContentHash)
    → IsValid index
    → (is_tracked_for ns' h (forget ns hash index).0
        ≡ ite
            (bytes_discrete ns' ns)
            (ite (bytes_discrete h hash) false (is_tracked_for ns' h index))
            (is_tracked_for ns' h index))
      × (is_present h (forget ns hash index).0
          ≡ is_present h index && is_tracked h (forget ns hash index).0)
unfolding is_tracked_for is_present is_tracked
forget_effect ns hash index ns' h v = (
  rw forget-sets (names_in-drop_reference ns hash index.by_namespace ns' h),
  ground (arith, get_state-forget ns hash index h),
)

-- A second `forget` of the same reference reports no release, and changes nothing that can be
-- read: neither a state nor a reference.
pub forget_again :
    (ns : NamespaceId) (hash : ContentHash) (index : ContentIndex)
    → let once = (forget ns hash index).0 in
      ((forget ns hash once).1 ≡ false)
      × ((h : ContentHash) → lookup_state h (forget ns hash once).0 ≡ lookup_state h once)
      × ((ns' : NamespaceId) (h : ContentHash)
          → is_tracked_for ns' h (forget ns hash once).0 ≡ is_tracked_for ns' h once)
unfolding is_tracked_for
forget_again ns hash index =
    let once = (forget ns hash index).0 in
    let gone : names_in ns hash once.by_namespace ≡ false =
      rw forget-sets (ground (arith, names_in-drop_reference ns hash index.by_namespace ns hash)) in
    let repeat : (forget ns hash once).1 ≡ false = ground (arith, forget-result ns hash once) in
    (
      repeat,
      λ h. ground (arith, get_state-forget ns hash once h),
      λ ns' h.
          rw (forget-sets ns hash once)
            (ground (arith, names_in-drop_reference ns hash once.by_namespace ns' h)),
    )

-- `want` adds the one reference, and no hash becomes missing or present by it.
pub want_effect :
    (ns : NamespaceId) (hash : ContentHash) (index : ContentIndex) (ns' : NamespaceId)
    (h : ContentHash)
    → (is_tracked_for ns' h (want ns hash index)
        ≡ ite
            (bytes_discrete ns' ns)
            (ite (bytes_discrete h hash) true (is_tracked_for ns' h index))
            (is_tracked_for ns' h index))
      × (is_present h (want ns hash index) ≡ is_present h index)
unfolding is_tracked_for is_present want HashSet.contains
want_effect ns hash index ns' h =
    let hashes = unwrap_or [] (lookup_set ns index) in
    (
      ground (
        arith,
        get-insert bytes_discrete ns ns' (HashSet.insert bytes_discrete hash hashes).0
            index.by_namespace,
        contains-insert bytes_discrete hash h hashes,
      ),
      ground (arith, get-or_wanted hash h index.state),
    )

-- `mark_present` changes no reference; the hash counts as present afterwards exactly if it is tracked,
-- and every other hash exactly if it did.
pub mark_present_effect :
    (hash : ContentHash) (index : ContentIndex) (ns' : NamespaceId) (h : ContentHash)
    → (is_tracked_for ns' h (mark_present hash index) ≡ is_tracked_for ns' h index)
      × (is_present h (mark_present hash index)
          ≡ ite (bytes_discrete h hash) (is_tracked h index) (is_present h index))
unfolding is_tracked_for is_present is_tracked mark_present
mark_present_effect hash index ns' h =
    (ground arith, ground (arith, get-insert bytes_discrete hash h present index.state))
