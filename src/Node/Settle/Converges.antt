-- ===== src/Node/Settle/Converges.antt =====
-- The settle loop of `rust/src/node.rs` makes servable what a peer has.
use trail_stash.Base.{
  if◌then◌else◌, ℕ, Bool, true, false, ◌≡◌, sym, ap, ◌∙◌, some, List, [], ◌∷◌, bytes_discrete,
  arith, inl, inr, Option-cases, leb, if_pos, if_neg,
}
use mathlib.Core.Option.{some-injective}
use mathlib.Core.Path.{subst}
use trail_stash.Content.{
  ContentIndex, ContentHash, NamespaceId, is_tracked, is_tracked_for, is_present, is_present_for,
  mark_present,
}
use trail_stash.Content.Laws.{mark_present_effect, is_tracked_iff}
use trail_stash.HashMap
use trail_stash.HashMap.{HashMap}
use trail_stash.Iroh.{Iroh, IsDownloader, is_stored}
use trail_stash.Node.{TrackedEntry, StashNode, fetch_content, sources}
use trail_stash.Node.Linked.{IsValid, lookup_state-mark_present}
use trail_stash.Node.Serve.{content_bytes}
use trail_stash.Node.Settle.{
  obtain, outstanding, settle_live, settle_entry, settle_all, settle_once,
}
use trail_stash.Node.Settle.Fallback.{outstanding-get}
use trail_stash.Node.Settle.Once.{obtain-tracked}
use trail_stash.Node.Settle.Wakes.{settle_live_others}

-- The namespace references the hash, and the index knows it.
abbrev IsReferenced : NamespaceId → ContentHash → ContentIndex → Type 0
IsReferenced ns h index = (is_tracked_for ns h index ≡ true) × (is_tracked h index ≡ true)

module _ (ns : NamespaceId) (h hash : ContentHash) (index : ContentIndex) where
  mark_present-IsReferenced : IsReferenced ns h index → IsReferenced ns h (mark_present hash index)
  unfolding is_tracked
  mark_present-IsReferenced (a, b) = (
    (mark_present_effect hash index ns h).0 ∙ a,
    ground (arith, b, lookup_state-mark_present hash h index),
  )

  is_present-mark_present :
      is_present h index ≡ true → is_present h (mark_present hash index) ≡ true
  unfolding is_present is_tracked
  is_present-mark_present a = ground (arith, a, lookup_state-mark_present hash h index)

module _ (w : Iroh) (law : IsDownloader w) (ns : NamespaceId) (h : ContentHash) where
  -- The node serves the hash to the namespace.
  abbrev IsServed : StashNode w → Type 0
  IsServed node =
      IsReferenced ns h node.content
      × (is_present h node.content ≡ true)
      × (is_stored (w.get_bytes node.blobs h) ≡ true)

  obtain-content :
      (now : ℕ) (hash : ContentHash) (entry : TrackedEntry) (node : StashNode w)
      → (obtain w now hash entry node).0.content ≡ node.content
  unfolding obtain fetch_content
  obtain-content now hash entry node = ground arith

  obtain-stored :
      (now : ℕ) (hash : ContentHash) (entry : TrackedEntry) (node : StashNode w)
      → is_stored (w.get_bytes node.blobs h) ≡ true
      → is_stored (w.get_bytes (obtain w now hash entry node).0.blobs h) ≡ true
  unfolding obtain fetch_content
  obtain-stored now hash entry node e =
      ground (arith, e, law.keeps node.blobs hash h (sources w entry) e)

  settle_live-IsServed :
      (now : ℕ) (hash : ContentHash) (entry : TrackedEntry) (there : Bool) (node : StashNode w)
      → IsServed node
      → IsServed (settle_live w now hash entry there node).0
  unfolding settle_live
  settle_live-IsServed now hash entry there node v =
      elim (Option-cases (HashMap.get bytes_discrete hash node.tracked)) [
        | inl e ↦ rw (e, settle_live) v
        | inr (live, e) ↦ rw (e, settle_live) (marked there v)
      ]
    where
      marked :
          (there : Bool)
          → IsServed node
          → IsReferenced ns h (if there then mark_present hash node.content else node.content)
            × (is_present h (if there then mark_present hash node.content else node.content) ≡ true)
            × (is_stored (w.get_bytes node.blobs h) ≡ true)
      marked true (a, b, c) = (
        mark_present-IsReferenced ns h hash node.content a,
        is_present-mark_present ns h hash node.content b,
        c,
      )
      marked false v = v

  settle_live-IsReferenced :
      (now : ℕ) (hash : ContentHash) (entry : TrackedEntry) (there : Bool) (node : StashNode w)
      → IsReferenced ns h node.content
      → IsReferenced ns h (settle_live w now hash entry there node).0.content
  unfolding settle_live
  settle_live-IsReferenced now hash entry there node v =
      elim (Option-cases (HashMap.get bytes_discrete hash node.tracked)) [
        | inl e ↦ rw (e, settle_live) v
        | inr (live, e) ↦ rw (e, settle_live) (marked there)
      ]
    where
      marked :
          (there : Bool)
          → IsReferenced ns h (if there then mark_present hash node.content else node.content)
      marked true = mark_present-IsReferenced ns h hash node.content v
      marked false = v

  settle_all-IsServed :
      (now : ℕ) (list : List (ContentHash × TrackedEntry)) (node : StashNode w)
      → IsServed node
      → IsServed (settle_all w now list node).0
  unfolding settle_all settle_entry
  settle_all-IsServed now [] node v = v
  settle_all-IsServed now ((hash, entry) ∷ rest) node (a, b, c) =
      let (node', there) = obtain w now hash entry node in
      let same : node'.content ≡ node.content = obtain-content now hash entry node in
      settle_all-IsServed now rest (settle_live w now hash entry there node').0 (
        settle_live-IsServed now hash entry there node' (
          subst (IsReferenced ns h) (sym same) a,
          ap (is_present h) same ∙ b,
          obtain-stored now hash entry node c,
        ))

  settle_live_here :
      (now : ℕ) (entry live : TrackedEntry) (there : Bool) (node : StashNode w)
      → there ≡ true
      → IsReferenced ns h node.content
      → HashMap.get bytes_discrete h node.tracked ≡ some live
      → is_stored (w.get_bytes node.blobs h) ≡ true
      → IsServed (settle_live w now h entry there node).0
  unfolding settle_live is_tracked is_present
  settle_live_here now entry live true node t (a, b) e c =
      rw (e, settle_live)
        (
          mark_present-IsReferenced ns h h node.content (a, b),
          ground (arith, b, lookup_state-mark_present h h node.content),
          c,
        )
  settle_live_here now entry live false node t v e c = cc

  -- The bytes of the hash are there, or a peer has them.
  obtain_here :
      (now : ℕ) (entry : TrackedEntry) (node : StashNode w)
      → leb entry.next_attempt_ms now ≡ true
      → ((b : w.Blobs) → (w.download b h (sources w entry)).1 ≡ true)
      → ((obtain w now h entry node).1 ≡ true)
        × (is_stored (w.get_bytes (obtain w now h entry node).0.blobs h) ≡ true)
  unfolding obtain fetch_content
  obtain_here now entry node time reachable =
      let facts = law.downloaded node.blobs h (sources w entry) (reachable node.blobs) in
      (
        ground (arith, time, reachable node.blobs),
        ground (arith, time, facts, law.had node.blobs h),
      )

  settle_all_serves :
      (now : ℕ) (entry live : TrackedEntry) (list : List (ContentHash × TrackedEntry))
      (node : StashNode w)
      → HashMap.get bytes_discrete h list ≡ some entry
      → IsReferenced ns h node.content
      → HashMap.get bytes_discrete h node.tracked ≡ some live
      → leb entry.next_attempt_ms now ≡ true
      → ((b : w.Blobs) → (w.download b h (sources w entry)).1 ≡ true)
      → IsServed (settle_all w now list node).0
  unfolding settle_all settle_entry HashMap.get
  settle_all_serves now entry live [] node f v e time reachable = absurd (ground (arith, f))
  settle_all_serves now entry live ((hash, x) ∷ rest) node f v e time reachable =
      let (node', there) = obtain w now hash x node in
      let referenced : IsReferenced ns h node'.content =
        subst (IsReferenced ns h) (sym (obtain-content now hash x node)) v in
      let tracked : HashMap.get bytes_discrete h node'.tracked ≡ some live =
        ap (HashMap.get bytes_discrete h) (obtain-tracked w now hash x node) ∙ e in
      elim (bytes_discrete h hash) [
        | yes p ↦
            let first : x ≡ entry =
              some-injective x entry (sym (if_pos (bytes_discrete h hash) p _ _) ∙ f) in
            settle_all-IsServed now rest (settle_live w now hash x there node').0 (at_hash p first)
        | no np ↦
            settle_all_serves now entry live rest (settle_live w now hash x there node').0
              (sym (if_neg (bytes_discrete h hash) np _ _) ∙ f)
              (settle_live-IsReferenced now hash x there node' referenced)
              (settle_live_others w now hash x there node' h np ∙ tracked) time reachable
      ]
    where
      at_hash :
          h ≡ hash
          → x ≡ entry
          → IsServed
              (settle_live w now hash x (obtain w now hash x node).1 (obtain w now hash x node).0).0
      at_hash p first =
          let (done, stored) = obtain_here now entry node time reachable in
          subst
            (λ k.
              IsServed
                (settle_live w now k x (obtain w now k x node).1 (obtain w now k x node).0).0)
            p
            (subst
              (λ y.
                IsServed
                  (settle_live w now h y (obtain w now h y node).1 (obtain w now h y node).0).0)
              (sym first)
              (settle_live_here now entry live (obtain w now h entry node).1
                (obtain w now h entry node).0 done
                (subst (IsReferenced ns h) (sym (obtain-content now h entry node)) v)
                (ap (HashMap.get bytes_discrete h) (obtain-tracked w now h entry node) ∙ e) stored))

  -- The loop converges: on a valid node one pass makes servable to the namespace what it references, if the hash
  -- is tracked without its bytes, it is time for an attempt, and a download from the sources of the entry succeeds, from a
  -- store that keeps what it has;
  -- what the other rounds of the pass fetch or fail to fetch does not matter.
  pub settle_once_serves :
      (now : ℕ) (entry : TrackedEntry) (node : StashNode w)
      → IsValid w node
      → is_tracked_for ns h node.content ≡ true
      → HashMap.get bytes_discrete h node.tracked ≡ some entry
      → entry.content_present ≡ false
      → leb entry.next_attempt_ms now ≡ true
      → ((b : w.Blobs) → (w.download b h (sources w entry)).1 ≡ true)
      → is_stored (content_bytes w ns h (settle_once w now node).0) ≡ true
  unfolding settle_once content_bytes is_tracked_for is_present_for
  settle_once_serves now entry node v a e missing time reachable =
      let known : is_tracked h node.content ≡ true =
        (is_tracked_iff h node.content v.valid).1 (ns, a) in
      let ((tracked, _), present, stored) =
        settle_all_serves now entry entry (outstanding node.tracked) node
          (outstanding-get h entry node.tracked e missing) (a, known) e time reachable in
      ground (arith, tracked, present, stored)
