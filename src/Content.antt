-- ===== src/Content.antt =====
-- `ContentIndex` of `rust/src/content.rs`: which content hashes the entries of each namespace
-- reference, and whether the bytes have landed.
pub mod Invariant
pub mod Forget
pub mod Laws
pub mod Counts
pub mod History
use trail_stash.Base.{
  suc, ℕ, Bool, true, false, ◌&&◌, not, Option, none, some, List, [], ◌∷◌, Bytes, bytes_discrete,
  length, any, is_some_and, if◌then◌else◌, is_empty, unwrap_or,
}
use trail_stash.HashMap
use trail_stash.HashMap.{HashMap}
use trail_stash.HashSet
use trail_stash.HashSet.{HashSet}

-- `[u8; 32]`
abbrev pub ContentHash : Type 0
ContentHash = Bytes

abbrev pub NamespaceId : Type 0
NamespaceId = Bytes

pub data State : Type 0 where
  wanted present : State

pub record ContentIndex : Type 0 where
  pub state : HashMap ContentHash State
  pub by_namespace : HashMap NamespaceId (HashSet ContentHash)

abbrev pub new : ContentIndex
new = record { state = []; by_namespace = [] }

abbrev pub lookup_state : ContentHash → ContentIndex → Option State
lookup_state hash index = HashMap.get bytes_discrete hash index.state

abbrev pub lookup_set : NamespaceId → ContentIndex → Option (HashSet ContentHash)
lookup_set ns index = HashMap.get bytes_discrete ns index.by_namespace

abbrev pub names : ContentHash → HashSet ContentHash → Bool
names hash set = HashSet.contains bytes_discrete hash set

-- `entry(hash).or_insert(State::Wanted)`.
unfoldable pub or_wanted : ContentHash → HashMap ContentHash State → HashMap ContentHash State
or_wanted hash state = elim (HashMap.get bytes_discrete hash state) [
  | none ↦ HashMap.insert bytes_discrete hash wanted state
  | some _ ↦ state
]

unfoldable pub want : NamespaceId → ContentHash → ContentIndex → ContentIndex
want ns hash index =
    let hashes = unwrap_or [] (lookup_set ns index) in
    record {
      state = or_wanted hash index.state;
      by_namespace =
          HashMap.insert bytes_discrete ns (HashSet.insert bytes_discrete hash hashes).0
            index.by_namespace;
    }

unfoldable pub mark_present : ContentHash → ContentIndex → ContentIndex
mark_present hash index = elim (lookup_state hash index) [
  | none ↦ index
  | some _ ↦ record index { state = HashMap.insert bytes_discrete hash present index.state }
]

unfoldable pub is_tracked : ContentHash → ContentIndex → Bool
is_tracked hash index = is_some_and (λ _. true) (lookup_state hash index)

unfoldable pub is_tracked_for : NamespaceId → ContentHash → ContentIndex → Bool
is_tracked_for ns hash index = is_some_and (names hash) (lookup_set ns index)

abbrev pub is_present_state : State → Bool
is_present_state wanted = false
is_present_state present = true

unfoldable pub is_present : ContentHash → ContentIndex → Bool
is_present hash index = is_some_and is_present_state (lookup_state hash index)

unfoldable pub is_present_for : NamespaceId → ContentHash → ContentIndex → Bool
is_present_for ns hash index =
    is_some_and (names hash) (lookup_set ns index) && is_present hash index

-- The first `match` of `forget`: the sets without the hash, and whether it was there.
unfoldable pub drop_reference :
    NamespaceId
    → ContentHash
    → HashMap NamespaceId (HashSet ContentHash)
    → HashMap NamespaceId (HashSet ContentHash) × Bool
drop_reference ns hash by_namespace = elim (HashMap.get bytes_discrete ns by_namespace) [
  | none ↦ (by_namespace, false)
  | some hashes ↦
      let (rest, removed) = HashSet.remove bytes_discrete hash hashes in
      if is_empty rest
      then (HashMap.remove bytes_discrete ns by_namespace, removed)
      else (HashMap.insert bytes_discrete ns rest by_namespace, removed)
]

abbrev pub still_referenced : ContentHash → HashMap NamespaceId (HashSet ContentHash) → Bool
still_referenced hash by_namespace = any (names hash) (HashMap.values by_namespace)

unfoldable pub forget : NamespaceId → ContentHash → ContentIndex → ContentIndex × Bool
forget ns hash index =
    let (rest, removed) = drop_reference ns hash index.by_namespace in
    if not removed
    then (record index { by_namespace = rest }, false)
    else if still_referenced hash rest
    then (record index { by_namespace = rest }, false)
    else (
      record { state = HashMap.remove bytes_discrete hash index.state; by_namespace = rest },
      true,
    )

-- `filter(|state| **state == State::Wanted).count()`.
unfoldable pub count_wanted : List State → ℕ
count_wanted [] = 0
count_wanted (s ∷ states) =
    let rest = count_wanted states in if is_present_state s then rest else suc rest

unfoldable pub missing_count : ContentIndex → ℕ
missing_count index = count_wanted (HashMap.values index.state)

unfoldable pub tracked_count : ContentIndex → ℕ
tracked_count index = length index.state

unfoldable pub referenced : ContentIndex → List ContentHash
referenced index = HashMap.keys index.state
