-- ===== src/Node/Turns/Upload.antt =====
-- The awaits of an upload of `rust/src/node.rs`: what other tasks may do at them, the collection of the store among
-- it, and what that does to one reference.
use trail_stash.Base.{
  Bool, true, false, ◌≡◌, List, [], ◌∷◌, Bytes, bytes_discrete, arith, ite, inl, inr, Option-cases,
  Bool-cases,
}
use trail_stash.Content.{
  ContentIndex, ContentHash, NamespaceId, is_tracked, is_tracked_for, is_present, mark_present,
  forget,
}
use trail_stash.Content.Forget.{forget-IsValid}
use trail_stash.Content.Invariant.{IsValid}
use trail_stash.Content.Laws.{want_effect, mark_present_effect, forget_effect, is_tracked_iff}
use trail_stash.HashMap
use trail_stash.HashSet.{HashSet}
use trail_stash.Iroh.{Iroh}
use trail_stash.Node.{StashNode, fetch_content}
use trail_stash.Node.Collect.{collect}
use trail_stash.Node.Settle.{settle_live}
use trail_stash.Node.Turns.{
  Section, wants, tracks, marks, fetches, writes, forgets, untracks, elsewhere, perform,
}
use trail_stash.Result.{ok, err}
use trail_stash.Subscriptions.{NamespaceRegistry}

module _ (w : Iroh) where
  -- What a task may do between two awaits of an upload: the store takes bytes, the store is collected, a registration
  -- or a synchronization, or a section of the other loops.
  pub data Turn : Type 0 where
    adds : Bytes → Turn
    collects : HashSet ContentHash → Turn
    enrolls : w.Docs → NamespaceRegistry → HashSet NamespaceId → List NamespaceId → Turn
    takes : Section w → Turn

  unfoldable pub take_turn : Turn → StashNode w → StashNode w
  take_turn (adds bytes) node = elim (w.add_bytes node.blobs bytes) [
    | err e ↦ node
    | ok (blobs, hash) ↦ record node { blobs = blobs }
  ]
  take_turn (collects tagged) node = collect w tagged node
  take_turn (enrolls docs registry handles watched) node = record node {
    docs = docs;
    registry = registry;
    handles = handles;
    spawned_watchers = watched;
  }
  take_turn (takes s) node = (perform w s node).0

  unfoldable pub take_turns : List Turn → StashNode w → StashNode w
  take_turns [] node = node
  take_turns (t ∷ turns) node = take_turns turns (take_turn t node)

  -- Whether a turn leaves one reference. The section that may put any store in place of the one that is there is left
  -- to the turns above it.
  abbrev pub spares_section : NamespaceId → ContentHash → Section w → Bool
  spares_section ns h (forgets ns' hash) =
      ite (bytes_discrete ns ns') (ite (bytes_discrete h hash) false true) true
  spares_section ns h (elsewhere docs blobs registry handles watched) = false
  spares_section ns h (wants ns' hash) = true
  spares_section ns h (tracks hash entry) = true
  spares_section ns h (marks hash) = true
  spares_section ns h (fetches hash entry) = true
  spares_section ns h (writes now hash entry present) = true
  spares_section ns h (untracks hash) = true

  abbrev pub spares : NamespaceId → ContentHash → Turn → Bool
  spares ns h (takes s) = spares_section ns h s
  spares ns h (adds bytes) = true
  spares ns h (collects tagged) = true
  spares ns h (enrolls docs registry handles watched) = true

  module _ (ns : NamespaceId) (h : ContentHash) where
    pub tracked_by :
        (index : ContentIndex)
        → IsValid index
        → is_tracked_for ns h index ≡ true
        → is_tracked h index ≡ true
    tracked_by index v e = (is_tracked_iff h index v).1 (ns, e)

    -- The index holds the reference still, and the mark if it had one.
    abbrev pub Keeps : ContentIndex → ContentIndex → Type 0
    Keeps index index' =
        (is_tracked_for ns h index' ≡ true)
        × (is_present h index ≡ true → is_present h index' ≡ true)

    mark_present-Keeps :
        (hash : ContentHash) (index : ContentIndex)
        → IsValid index
        → is_tracked_for ns h index ≡ true
        → Keeps index (mark_present hash index)
    mark_present-Keeps hash index v e =
        let (tracked, present) = mark_present_effect hash index ns h in
        (ground (arith, tracked, e), λ p. ground (arith, present, p, tracked_by index v e))

    pub perform-Keeps :
        (s : Section w) (node : StashNode w)
        → IsValid node.content
        → spares_section ns h s ≡ true
        → is_tracked_for ns h node.content ≡ true
        → Keeps node.content (perform w s node).0.content
    unfolding perform fetch_content settle_live
    perform-Keeps (wants ns' hash) node v r e =
        let (tracked, present) = want_effect ns' hash node.content ns h in
        (ground (arith, tracked, e), λ p. ground (arith, present, p))
    perform-Keeps (tracks hash entry) node v r e = (e, λ p. p)
    perform-Keeps (marks hash) node v r e = mark_present-Keeps hash node.content v e
    perform-Keeps (fetches hash entry) node v r e = (e, λ p. p)
    perform-Keeps (untracks hash) node v r e = (e, λ p. p)
    perform-Keeps (elsewhere docs blobs registry handles watched) node v r e =
        absurd (ground (arith, r))
    perform-Keeps (writes now hash entry present) node v r e =
        elim (Option-cases (HashMap.get bytes_discrete hash node.tracked)) [
          | inl f ↦ rw (f, settle_live) (e, λ p. p)
          | inr (live, f) ↦ elim (Bool-cases present) [
            | inl g ↦ rw (f, settle_live, g) (mark_present-Keeps hash node.content v e)
            | inr g ↦ rw (f, settle_live, g) (e, λ p. p)
          ]
        ]
    perform-Keeps (forgets ns' hash) node v r e =
        let (tracked, present) = forget_effect ns' hash node.content ns h v in
        let after = (forget ns' hash node.content).0 in
        let still : is_tracked_for ns h after ≡ true = ground (arith, tracked, r, e) in
        (
          still,
          λ p.
              ground (
                arith,
                present,
                p,
                tracked_by after (forget-IsValid ns' hash node.content v) still,
              ),
        )
