-- ===== src/Node/Turns/Chased.antt =====
-- Only a sweep makes the tasks of `rust/src/node.rs` lose a hash: without one, every order of their sections keeps
-- chasing what a watcher received.
use trail_stash.Base.{
  ℕ, Bool, true, false, ◌||◌, ◌≡◌, List, [], ◌∷◌, bytes_discrete, arith, any, ite, is_some_and,
  Option-cases, inl, inr,
}
use trail_stash.Content.{ContentHash, is_tracked}
use trail_stash.Content.Forget.{get_state-forget}
use trail_stash.HashMap
use trail_stash.HashMap.{HashMap, get-insert, get-remove}
use trail_stash.Iroh.{Iroh}
use trail_stash.Node.{TrackedEntry, StashNode, fetch_content}
use trail_stash.Node.Linked.{lookup_state-want, lookup_state-mark_present, get-or_insert}
use trail_stash.Node.Settle.{settle_live, released}
use trail_stash.Node.Turns.{
  Section, wants, tracks, marks, fetches, writes, forgets, untracks, elsewhere, perform,
  perform_all,
}

module _ (w : Iroh) (h : ContentHash) where
  abbrev same : ContentHash → Bool
  same hash = ite (bytes_discrete h hash) true false

  abbrev pub is_wanting : Section w → Bool
  is_wanting (wants ns hash) = same hash
  is_wanting (tracks hash entry) = false
  is_wanting (marks hash) = false
  is_wanting (fetches hash entry) = false
  is_wanting (writes now hash entry present) = false
  is_wanting (forgets ns hash) = false
  is_wanting (untracks hash) = false
  is_wanting (elsewhere docs blobs registry handles watched) = false

  abbrev pub is_tracking : Section w → Bool
  is_tracking (wants ns hash) = false
  is_tracking (tracks hash entry) = same hash
  is_tracking (marks hash) = false
  is_tracking (fetches hash entry) = false
  is_tracking (writes now hash entry present) = false
  is_tracking (forgets ns hash) = false
  is_tracking (untracks hash) = false
  is_tracking (elsewhere docs blobs registry handles watched) = false

  -- The section is one of a sweep that releases the hash.
  abbrev pub is_sweeping : Section w → Bool
  is_sweeping (wants ns hash) = false
  is_sweeping (tracks hash entry) = false
  is_sweeping (marks hash) = false
  is_sweeping (fetches hash entry) = false
  is_sweeping (writes now hash entry present) = false
  is_sweeping (forgets ns hash) = same hash
  is_sweeping (untracks hash) = same hash
  is_sweeping (elsewhere docs blobs registry handles watched) = false

  -- The index tracks the hash, and the settle loop does.
  abbrev pub is_indexed : StashNode w → Bool
  is_indexed node = is_tracked h node.content

  abbrev pub is_chased : StashNode w → Bool
  is_chased node = is_some_and (λ _. true) (HashMap.get bytes_discrete h node.tracked)

  settle_live-indexed :
      (now : ℕ) (hash : ContentHash) (entry : TrackedEntry) (present : Bool) (node : StashNode w)
      → (is_indexed node ≡ true → is_indexed (settle_live w now hash entry present node).0 ≡ true)
        × (is_chased node ≡ true → is_chased (settle_live w now hash entry present node).0 ≡ true)
  unfolding settle_live is_tracked
  settle_live-indexed now hash entry present node =
      elim (Option-cases (HashMap.get bytes_discrete hash node.tracked)) [
        | inl e ↦ rw (e, settle_live) (λ a. a, λ b. b)
        | inr (live, e) ↦
            rw (e, settle_live)
              (
                λ a. ground (arith, a, lookup_state-mark_present hash h node.content),
                λ b. ground (
                  arith,
                  b,
                  get-insert bytes_discrete hash h (released now present entry live) node.tracked,
                ),
              )
      ]

  perform-indexed :
      (s : Section w) (node : StashNode w)
      → is_sweeping s ≡ false
      → (is_indexed node || is_wanting s) ≡ true
      → is_indexed (perform w s node).0 ≡ true
  unfolding perform is_tracked fetch_content
  perform-indexed (wants ns hash) node r e =
      ground (arith, e, lookup_state-want ns hash h node.content)
  perform-indexed (tracks hash entry) node r e = ground (arith, e)
  perform-indexed (marks hash) node r e =
      ground (arith, e, lookup_state-mark_present hash h node.content)
  perform-indexed (fetches hash entry) node r e = ground (arith, e)
  perform-indexed (writes now hash entry present) node r e =
      (settle_live-indexed now hash entry present node).0 (ground (arith, e))
  perform-indexed (forgets ns hash) node r e =
      ground (arith, e, r, get_state-forget ns hash node.content h)
  perform-indexed (untracks hash) node r e = ground (arith, e)
  perform-indexed (elsewhere docs blobs registry handles watched) node r e = ground (arith, e)

  perform-chased :
      (s : Section w) (node : StashNode w)
      → is_sweeping s ≡ false
      → (is_chased node || is_tracking s) ≡ true
      → is_chased (perform w s node).0 ≡ true
  unfolding perform fetch_content
  perform-chased (wants ns hash) node r e = ground (arith, e)
  perform-chased (tracks hash entry) node r e =
      ground (arith, e, get-or_insert hash h entry node.tracked)
  perform-chased (marks hash) node r e = ground (arith, e)
  perform-chased (fetches hash entry) node r e = ground (arith, e)
  perform-chased (writes now hash entry present) node r e =
      (settle_live-indexed now hash entry present node).1 (ground (arith, e))
  perform-chased (forgets ns hash) node r e = ground (arith, e)
  perform-chased (untracks hash) node r e =
      ground (arith, e, r, get-remove bytes_discrete hash h node.tracked)
  perform-chased (elsewhere docs blobs registry handles watched) node r e = ground (arith, e)

  -- What no section loses and some section brings about holds in the end.
  gained :
      (holds : StashNode w → Bool) (brings : Section w → Bool)
      → ((s : Section w) (node : StashNode w)
          → is_sweeping s ≡ false
          → (holds node || brings s) ≡ true
          → holds (perform w s node).0 ≡ true)
      → (sections : List (Section w)) (node : StashNode w) → any is_sweeping sections ≡ false
      → (holds node || any brings sections) ≡ true
      → holds (perform_all w sections node).0 ≡ true
  unfolding perform_all
  gained holds brings step [] node r e = ground (arith, e)
  gained holds brings step (s ∷ sections) node r e =
      gained holds brings step sections (perform w s node).0 (ground (arith, r))
        (ground (arith, e, r, step s node))

  -- In whatever order the sections of all tasks take turns, a hash for which some watcher took its two sections is
  -- tracked in the end by the index and by the settle loop, as long as no sweep releases it in between.
  pub chased_without_sweep :
      (sections : List (Section w)) (node : StashNode w)
      → any is_sweeping sections ≡ false
      → any is_wanting sections ≡ true
      → any is_tracking sections ≡ true
      → (is_indexed (perform_all w sections node).0 ≡ true)
        × (is_chased (perform_all w sections node).0 ≡ true)
  chased_without_sweep sections node r wanting tracking = (
    gained is_indexed is_wanting perform-indexed sections node r (ground (arith, wanting)),
    gained is_chased is_tracking perform-chased sections node r (ground (arith, tracking)),
  )
