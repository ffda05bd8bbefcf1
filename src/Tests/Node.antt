-- ===== src/Tests/Node.antt =====
-- The theorems on `rust/src/node.rs` at concrete inputs, over a small store.
use trail_stash.Base.{
  ◌≡◌, ◌≤◌, refl, true, false, some, none, [], ◌∷◌, Bytes, bytes_discrete, is_some_and, arith,
  if◌then◌else◌,
}
use trail_stash.Content.{ContentHash, NamespaceId}
use trail_stash.Base.{ℕ_discrete}
use trail_stash.HashMap
use trail_stash.HashSet
use trail_stash.HashSet.{HashSet}
use trail_stash.HashMap.{HashMap, get-insert}
use trail_stash.Iroh.{Iroh, IsBlobStore, DocEntry, EndpointId}
use trail_stash.Mls.{passthrough}
use trail_stash.Node.{StashNode, TrackedEntry, has_blob, backoff_ms}
use trail_stash.Node.Linked.{IsValid}
use trail_stash.Node.Receive.{receive}
use trail_stash.Node.Watched.{IsWatched, reachable-IsWatched}
use trail_stash.Node.Run.{spawned, Step, Reach, reachable-IsValid}
use trail_stash.Node.Settle.Wakes.{backoff_ms_bounds}
use trail_stash.Node.Settle.Once.{releases, is_woken, settle_passes, arrived_present_unwoken}
use trail_stash.Result.{ok}
use trail_stash.Retention.{from_hours}

unfoldable pub keep_live :
    HashSet ContentHash → HashMap ContentHash Bytes → HashMap ContentHash Bytes
keep_live live [] = []
keep_live live ((h, bytes) ∷ b) =
    let rest = keep_live live b in
    if HashSet.contains bytes_discrete h live then (h, bytes) ∷ rest else rest

-- A store that keeps content under itself, on a node with no peers.
abbrev pub store : Iroh
store = record {
  Blobs = HashMap ContentHash Bytes;
  Docs = Unit {0};
  Ticket = NamespaceId;
  has = λ b h. some (is_some_and (λ _. true) (HashMap.get bytes_discrete h b));
  get_bytes = λ b h. HashMap.get bytes_discrete h b;
  add_bytes = λ b bytes. ok (HashMap.insert bytes_discrete bytes bytes b, bytes);
  download = λ b h peers. (b, false);
  collect = keep_live;
  hash_of = λ bytes. bytes;
  parse_hash = λ t. some t;
  endpoint_id = λ bytes. some bytes;
  parse_ticket = λ t. ok t;
  ticket_namespace = λ t. t;
  import_namespace = λ docs ns. ok docs;
  start_sync = λ docs ns peers. ok docs;
  get_many = λ docs ns. ok [];
}

pub store-IsBlobStore : IsBlobStore store
store-IsBlobStore = record {
  added = λ b bytes b' h e. ground (arith, get-insert bytes_discrete bytes h bytes b);
}

abbrev pub fresh_node : StashNode store
fresh_node = spawned store tt [] passthrough (from_hours 48)

abbrev pub home : NamespaceId
home =
    19 ∷ 19 ∷ 19 ∷ 19 ∷ 19 ∷ 19 ∷ 19 ∷ 19 ∷ 19 ∷ 19 ∷ 19 ∷ 19 ∷ 19 ∷ 19 ∷ 19 ∷ 19 ∷ 19 ∷ 19 ∷ 19
    ∷ 19 ∷ 19 ∷ 19 ∷ 19 ∷ 19 ∷ 19 ∷ 19 ∷ 19 ∷ 19 ∷ 19 ∷ 19 ∷ 19 ∷ 19 ∷ []

abbrev pub photo : Bytes
photo = 5 ∷ []

abbrev pub arriving : DocEntry
arriving = record { key = []; content_hash = photo; timestamp = 1000000 }

abbrev pub peer : EndpointId
peer = 7 ∷ []

-- The node that has seen the record of the photo, but not its bytes.
abbrev pub waiting : StashNode store
waiting = (receive store home arriving peer 1000 fresh_node).0

reached : Reach store fresh_node waiting
reached = Reach.next Reach.here (Step.received home arriving peer 1000)

pub waiting-IsValid : IsValid store waiting
waiting-IsValid = reachable-IsValid store tt [] passthrough (from_hours 48) waiting reached

reachable-IsValid_example : IsValid store waiting
reachable-IsValid_example =
    reachable-IsValid store tt [] passthrough (from_hours 48) waiting reached

reachable-IsWatched_example : IsWatched store waiting
reachable-IsWatched_example =
    reachable-IsWatched store tt [] passthrough (from_hours 48) waiting reached

-- A fresh node whose store has the photo already.
abbrev pub stocked : StashNode store
stocked = record fresh_node { blobs = (photo, photo) ∷ [] }

has_photo : has_blob store stocked photo ≡ true
unfolding HashMap.get bytes_discrete ℕ_discrete
has_photo = refl

untracked_photo : HashMap.get bytes_discrete photo stocked.tracked ≡ none
unfolding HashMap.get
untracked_photo = refl

abbrev pub chased : TrackedEntry
chased = record {
  namespace = home;
  author = [];
  delivered_by = peer;
  seq = 0;
  first_seen_ms = 1000;
  content_present = false;
  woken = false;
  next_attempt_ms = 0;
  attempts = 0;
}

abbrev pub chasing : StashNode store
chasing = record fresh_node { tracked = (photo, chased) ∷ [] }

pub tracked_photo : HashMap.get bytes_discrete photo chasing.tracked ≡ some chased
unfolding HashMap.get bytes_discrete ℕ_discrete
tracked_photo = refl

backoff_ms_bounds_example :
    (500 ≤ backoff_ms 3) × (backoff_ms 3 ≤ 60000) × (3 ≤ 9 → backoff_ms 3 ≤ backoff_ms 9)
backoff_ms_bounds_example = backoff_ms_bounds 3 9

-- The photo is tracked by an entry that counts as woken.
abbrev served : StashNode store
served = record fresh_node { tracked = (photo, record chased { woken = true }) ∷ [] }

served_woken : is_woken store photo served ≡ true
unfolding HashMap.get bytes_discrete ℕ_discrete
served_woken = refl

arrived_present_unwoken_example :
    ((receive store home arriving peer 1000 stocked).1 ≡ none)
    × (releases photo (
          settle_passes store (2000 ∷ 50000 ∷ []) (receive store home arriving peer 1000 stocked).0)
        ≡ false)
arrived_present_unwoken_example =
    arrived_present_unwoken store home arriving peer 1000 stocked (2000 ∷ 50000 ∷ []) has_photo
      untracked_photo
