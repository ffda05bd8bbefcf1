-- ===== src/Node/Abstract.antt =====
-- What the node of `rust/src/node.rs` promises, with no map, no set and no count: who is registered, which content
-- each namespace references, which content is there, and what an operation does to that.
pub mod Index
pub mod Loops
pub mod Sweeps
pub mod Simulates
use trail_stash.Base.{
  [], ◌∷◌, none, some, List, if◌then◌else◌, some, ◌∷◌, ◌&&◌, if◌then◌else◌, List, Bool, true, ◌≡◌,
  ◌↔◌, ◌||◌, false, Option, bytes_discrete, ite,
}
use trail_stash.Content.{ContentIndex, ContentHash, NamespaceId, is_tracked_for, is_present}
use trail_stash.Node.Receive.{LiveEvent, insert, other}
use trail_stash.Subscriptions.{NamespaceRegistry, PushSubscription, subscription_discrete, is_known}
use trail_stash.Subscriptions.Laws.{wakes, same}

pub record View : Type 0 where
  pub known : NamespaceId → Bool
  pub woken : NamespaceId → PushSubscription → Bool
  pub refers : NamespaceId → ContentHash → Bool
  pub holds : ContentHash → Bool

abbrev pub view_of : NamespaceRegistry → ContentIndex → View
view_of registry index = record {
  known = λ ns. is_known ns registry;
  woken = λ ns sub. wakes ns sub registry;
  refers = λ ns h. is_tracked_for ns h index;
  holds = λ h. is_present h index;
}

abbrev pub registered_view : NamespaceId → Option PushSubscription → View → View
registered_view ns sub v = record v {
  known = λ ns'. ite (bytes_discrete ns' ns) true (v.known ns');
  woken = λ ns' t. ite (bytes_discrete ns' ns) (same sub t) false || v.woken ns' t;
}

abbrev pub unsubscribed_view : NamespaceId → PushSubscription → View → View
unsubscribed_view ns sub v = record v {
  woken = λ ns' t.
      ite (bytes_discrete ns' ns) (ite (subscription_discrete t sub) false (v.woken ns' t))
        (v.woken ns' t);
}

-- A record names content, which is there only if it was already.
abbrev pub wanted_view : NamespaceId → ContentHash → View → View
wanted_view ns h v = record v {
  refers = λ ns' h'.
      ite (bytes_discrete ns' ns) (ite (bytes_discrete h' h) true (v.refers ns' h'))
        (v.refers ns' h');
}

abbrev pub landed_view : ContentHash → View → View
landed_view h v = record v { holds = λ h'. ite (bytes_discrete h' h) true (v.holds h') }

abbrev pub landed_all : List ContentHash → View → View
landed_all [] v = v
landed_all (h ∷ hashes) v = landed_all hashes (landed_view h v)

-- A record arrives whose bytes are in the store already, or not.
abbrev pub heard_view : NamespaceId → ContentHash → Bool → View → View
heard_view ns h there v = if there then landed_view h (wanted_view ns h v) else wanted_view ns h v

-- The events of a stream, up to its first error.
abbrev pub heard_all : (ContentHash → Bool) → NamespaceId → List (Option LiveEvent) → View → View
heard_all there ns [] v = v
heard_all there ns (none ∷ events) v = v
heard_all there ns (some (insert entry from now) ∷ events) v =
    heard_all there ns events (heard_view ns entry.content_hash (there entry.content_hash) v)
heard_all there ns (some other ∷ events) v = heard_all there ns events v

abbrev pub Refers : View → ContentHash → Type 0
Refers v h = (ns : NamespaceId) × (v.refers ns h ≡ true)

-- What a sweep does: no registration changes, no reference is made, and of what was there exactly the content stays
-- that some namespace still references; where no error ends it, a reference stays exactly if `keeps` says so.
pub record Swept (v v' : View) (completed : Bool) (keeps : NamespaceId → ContentHash → Bool)
    : Type 0 where
  pub known : v'.known ≡ v.known
  pub woken : v'.woken ≡ v.woken
  pub refers : (ns : NamespaceId) (h : ContentHash) → v'.refers ns h ≡ true → v.refers ns h ≡ true
  pub kept :
      completed ≡ true
      → (ns : NamespaceId) (h : ContentHash)
      → v'.refers ns h ≡ (v.refers ns h && (if v.known ns then keeps ns h else true))
  pub holds : (h : ContentHash) → (v'.holds h ≡ true) ↔ ((v.holds h ≡ true) × Refers v' h)
