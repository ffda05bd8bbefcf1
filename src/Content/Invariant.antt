-- ===== src/Content/Invariant.antt =====
-- The invariant of `ContentIndex`, and that every operation keeps it.
use trail_stash.Base.{
  ◌≡◌, refl, sym, Bool, true, false, ◌||◌, some, [], inl, inr, arith, bytes_discrete, ite, any,
  is_some_and, Bool-cases, Option-cases, is_empty, unwrap_or,
}
use trail_stash.HashMap
use trail_stash.HashMap.{HashMap, values, get-insert, get-remove}
use trail_stash.HashMap.Distinct.{
  Distinct, insert-Distinct, remove-Distinct, any-values, any-values-insert,
}
use trail_stash.HashSet
use trail_stash.HashSet.{contains_empty, HashSet, contains-insert, contains-erase}
use trail_stash.Content.{
  ContentIndex, State, wanted, present, ContentHash, NamespaceId, new, lookup_state, lookup_set,
  names, or_wanted, want, mark_present, is_tracked, drop_reference, still_referenced,
}

-- A hash has a state exactly when some namespace references it, and every key is there once.
pub record IsValid (index : ContentIndex) : Type 0 where
  pub agree : (h : ContentHash) → is_tracked h index ≡ still_referenced h index.by_namespace
  pub distinct_state : Distinct bytes_discrete index.state
  pub distinct_sets : Distinct bytes_discrete index.by_namespace

pub new-IsValid : IsValid new
unfolding is_tracked HashMap.get
new-IsValid = record { agree = λ h. refl; distinct_state = tt; distinct_sets = tt }

abbrev rest_of : NamespaceId → ContentHash → ContentIndex → Bool
rest_of ns h index = any (names h) (values (HashMap.remove bytes_discrete ns index.by_namespace))

or_wanted-Distinct :
    (hash : ContentHash) (m : HashMap ContentHash State)
    → Distinct bytes_discrete m
    → Distinct bytes_discrete (or_wanted hash m)
unfolding or_wanted
or_wanted-Distinct hash m d = elim (Option-cases (HashMap.get bytes_discrete hash m)) [
  | inl e ↦ rw (e, or_wanted) (insert-Distinct bytes_discrete hash wanted m d)
  | inr (s, e) ↦ rw (e, or_wanted) d
]

pub get-or_wanted :
    (hash h : ContentHash) (m : HashMap ContentHash State)
    → HashMap.get bytes_discrete h (or_wanted hash m)
      ≡ ite
          (bytes_discrete h hash)
          (some (unwrap_or wanted (HashMap.get bytes_discrete hash m)))
          (HashMap.get bytes_discrete h m)
unfolding or_wanted
get-or_wanted hash h m = ground (arith, get-insert bytes_discrete hash h wanted m)

-- `is_tracked_for` on the map of the sets.
abbrev pub names_in : NamespaceId → ContentHash → HashMap NamespaceId (HashSet ContentHash) → Bool
names_in ns h m = is_some_and (names h) (HashMap.get bytes_discrete ns m)

is_tracked-want :
    (ns : NamespaceId) (hash h : ContentHash) (index : ContentIndex)
    → is_tracked h (want ns hash index) ≡ ite (bytes_discrete h hash) true (is_tracked h index)
unfolding is_tracked want
is_tracked-want ns hash h index = ground (arith, get-or_wanted hash h index.state)

still_referenced-want :
    (ns : NamespaceId) (hash h : ContentHash) (index : ContentIndex)
    → Distinct bytes_discrete index.by_namespace
    → still_referenced h (want ns hash index).by_namespace
      ≡ ite (bytes_discrete h hash) true (still_referenced h index.by_namespace)
unfolding want HashSet.contains
still_referenced-want ns hash h index d =
    let hashes = unwrap_or [] (lookup_set ns index) in
    ground (
      arith,
      any-values-insert bytes_discrete (names h) ns (HashSet.insert bytes_discrete hash hashes).0
          index.by_namespace d,
      any-values bytes_discrete (names h) ns index.by_namespace d,
      contains-insert bytes_discrete hash h hashes,
    )

pub want-IsValid :
    (ns : NamespaceId) (hash : ContentHash) (index : ContentIndex)
    → IsValid index
    → IsValid (want ns hash index)
unfolding want
want-IsValid ns hash index v = record {
  agree = λ h.
      rw (is_tracked-want ns hash h index, v.agree h)
        (sym (still_referenced-want ns hash h index v.distinct_sets));
  distinct_state = or_wanted-Distinct hash index.state v.distinct_state;
  distinct_sets = insert-Distinct bytes_discrete ns _ index.by_namespace v.distinct_sets;
}

is_tracked-mark_present :
    (hash h : ContentHash) (index : ContentIndex)
    → is_tracked h (mark_present hash index) ≡ is_tracked h index
unfolding is_tracked mark_present
is_tracked-mark_present hash h index =
    ground (arith, get-insert bytes_discrete hash h present index.state)

mark_present-sets :
    (hash : ContentHash) (index : ContentIndex)
    → (mark_present hash index).by_namespace ≡ index.by_namespace
unfolding mark_present
mark_present-sets hash index = ground arith

mark_present-Distinct :
    (hash : ContentHash) (index : ContentIndex)
    → Distinct bytes_discrete index.state
    → Distinct bytes_discrete (mark_present hash index).state
unfolding mark_present
mark_present-Distinct hash index d = elim (Option-cases (lookup_state hash index)) [
  | inl e ↦ rw (e, mark_present) d
  | inr (s, e) ↦ rw (e, mark_present) (insert-Distinct bytes_discrete hash present index.state d)
]

pub mark_present-IsValid :
    (hash : ContentHash) (index : ContentIndex) → IsValid index → IsValid (mark_present hash index)
mark_present-IsValid hash index v = record {
  agree = λ h. rw (is_tracked-mark_present hash h index, mark_present-sets hash index) (v.agree h);
  distinct_state = mark_present-Distinct hash index v.distinct_state;
  distinct_sets = rw (mark_present-sets hash index) v.distinct_sets;
}

module _ (ns : NamespaceId) (hash : ContentHash)
    (m : HashMap NamespaceId (HashSet ContentHash)) where
  pub drop_reference-removed : (drop_reference ns hash m).1 ≡ names_in ns hash m
  unfolding drop_reference HashSet.remove
  drop_reference-removed = ground arith

  pub drop_reference-Distinct :
      Distinct bytes_discrete m → Distinct bytes_discrete (drop_reference ns hash m).0
  unfolding drop_reference HashSet.remove
  drop_reference-Distinct d = elim (Option-cases (HashMap.get bytes_discrete ns m)) [
    | inl e ↦ rw (e, drop_reference) d
    | inr (hashes, e) ↦
        let rest = HashSet.erase bytes_discrete hash hashes in
        elim (Bool-cases (is_empty rest)) [
          | inl none_left ↦
              rw (e, drop_reference, none_left) (remove-Distinct bytes_discrete ns m d)
          | inr some_left ↦
              rw (e, drop_reference, some_left) (insert-Distinct bytes_discrete ns rest m d)
        ]
  ]

  -- Which names are left: all but the dropped one.
  pub names_in-drop_reference :
      (ns' : NamespaceId) (h : ContentHash)
      → names_in ns' h (drop_reference ns hash m).0
        ≡ ite
            (bytes_discrete ns' ns)
            (ite (bytes_discrete h hash) false (names_in ns' h m))
            (names_in ns' h m)
  unfolding drop_reference HashSet.remove
  names_in-drop_reference ns' h = elim (Option-cases (HashMap.get bytes_discrete ns m)) [
    | inl e ↦ ground arith
    | inr (hashes, e) ↦
        let rest = HashSet.erase bytes_discrete hash hashes in
        ground (
          arith,
          get-insert bytes_discrete ns ns' rest m,
          get-remove bytes_discrete ns ns' m,
          contains-erase bytes_discrete hash h hashes,
          contains_empty bytes_discrete h rest,
        )
  ]

  pub still_referenced-drop_reference :
      (h : ContentHash)
      → Distinct bytes_discrete m
      → still_referenced h (drop_reference ns hash m).0
        ≡ ite (bytes_discrete h hash) false (names_in ns h m)
          || any (names h) (values (HashMap.remove bytes_discrete ns m))
  unfolding drop_reference HashSet.remove
  still_referenced-drop_reference h d = elim (Option-cases (HashMap.get bytes_discrete ns m)) [
    | inl e ↦ ground (arith, any-values bytes_discrete (names h) ns m d)
    | inr (hashes, e) ↦
        let rest = HashSet.erase bytes_discrete hash hashes in
        ground (
          arith,
          any-values-insert bytes_discrete (names h) ns rest m d,
          any-values bytes_discrete (names h) ns m d,
          contains-erase bytes_discrete hash h hashes,
          contains_empty bytes_discrete h rest,
        )
  ]
