-- ===== src/Tests/Uploads.antt =====
-- An upload to the node of `rust/src/node.rs` among other tasks, at a concrete input.
use trail_stash.Base.{◌≡◌, refl, some, none, List, [], ◌∷◌, bytes_discrete, ℕ_discrete, arith}
use trail_stash.Content.{is_tracked_for, want}
use trail_stash.HashMap
use trail_stash.HashMap.{get-insert}
use trail_stash.HashSet
use trail_stash.Iroh.{IsDurable, IsHolding}
use trail_stash.Node.{StashNode}
use trail_stash.Node.Receive.{receive}
use trail_stash.Node.Serve.{content_bytes, put_content, store_bytes, stored}
use trail_stash.Node.Turns.{wants, forgets}
use trail_stash.Node.Turns.Upload.{Turn, adds, collects, takes, take_turns}
use trail_stash.Node.Turns.Uploaded.{upload_turns, uploaded_stays}
use trail_stash.Result.{ok}
use mathlib.Core.List.{Memᴰ}
use trail_stash.Mls.{passthrough}
use trail_stash.Node.Settle.{settle_tick}
use trail_stash.Node.Settle.Supplied.{uploaded_woken}
use trail_stash.Subscriptions.{PushSubscription, Platform, wake_targets}
use trail_stash.Text.{text}
use trail_stash.Subscriptions
use trail_stash.Subscriptions.{is_known}
use trail_stash.Tests.Node.{
  store, chased, store-IsBlobStore, home, photo, peer, waiting, waiting-IsValid,
}
use trail_stash.Tests.Reclaim.{store-IsCollector}

store-IsDurable : IsDurable store
store-IsDurable = record {
  adds = λ b bytes b' h k x e named there.
      ground (arith, e, named, there, get-insert bytes_discrete bytes k bytes b);
  downloads = λ b h k peers x named there. there;
}

-- The node waits for the photo in a namespace that it knows.
abbrev expecting : StashNode store
expecting = record waiting { registry = (Subscriptions.register home none Subscriptions.new).0 }

accepted : (put_content store home photo photo expecting).1 ≡ ok stored
unfolding put_content is_known HashSet.contains is_tracked_for store_bytes Subscriptions.register
    HashSet.insert bytes_discrete ℕ_discrete HashMap.get receive want HashMap.insert
accepted = refl

-- A collection, a reference of another namespace that comes and goes, and another upload.
abbrev between : List (Turn store)
between = collects [] ∷ takes (wants peer photo) ∷ takes (forgets peer photo) ∷ adds home ∷ []

uploaded_stays_example :
    (content_bytes store home photo
        (take_turns store (upload_turns store photo photo between (collects [] ∷ [])) expecting)
      ≡ some photo)
    × (take_turns store (upload_turns store photo photo [] []) expecting
        ≡ (put_content store home photo photo expecting).0)
unfolding bytes_discrete ℕ_discrete
uploaded_stays_example =
    uploaded_stays store store-IsBlobStore store-IsCollector store-IsDurable home photo photo
      between (collects [] ∷ []) expecting waiting-IsValid.valid accepted refl

store-IsHolding : IsHolding store
unfolding HashMap.get
store-IsHolding = record {
  finds = λ b bytes b' h e. ground (arith, e, get-insert bytes_discrete bytes h bytes b);
  keeps_found = λ b h k peers e. e;
}

-- The namespace has a subscriber.
abbrev phone : PushSubscription
phone = record { platform = Platform.apns; token = text "a" }

abbrev watching : StashNode store
watching = record expecting {
  registry = (Subscriptions.register home (some phone) Subscriptions.new).0;
  tracked = (photo, chased) ∷ [];
}

taken : (put_content store home photo photo watching).1 ≡ ok stored
unfolding put_content is_known HashSet.contains is_tracked_for store_bytes Subscriptions.register
    HashSet.insert bytes_discrete ℕ_discrete HashMap.get receive want HashMap.insert
taken = refl

uploaded_woken_example :
    Memᴰ
      (record { namespace = home; targets = wake_targets home watching.registry })
      (settle_tick store 2000 (put_content store home photo photo watching).0).1
unfolding passthrough wake_targets HashMap.get Subscriptions.register Subscriptions.add_sub
    HashMap.insert bytes_discrete ℕ_discrete HashSet.insert HashSet.contains receive
uploaded_woken_example =
    uploaded_woken store store-IsHolding 2000 photo home photo chased watching taken refl refl refl
      (λ envelope. refl) refl
