-- ===== src/Node/Turns/Orders.antt =====
-- What holds of the tasks of `rust/src/node.rs` in whatever order their sections take turns.
use trail_stash.Base.{
  ℕ, suc, ◌+◌, ◌≤◌, Bool, true, false, ◌≡◌, refl, none, some, List, [], ◌∷◌, ◌++◌, bytes_discrete,
  arith, any, ite, inl, inr, Option-cases, Bool-cases, if◌then◌else◌,
}
use trail_stash.Content.{
  ContentIndex, ContentHash, NamespaceId, wanted, lookup_state, mark_present, forget,
}
use trail_stash.HashMap
use trail_stash.HashMap.{HashMap, get-remove}
use trail_stash.Iroh.{Iroh, EndpointId, DocEntry}
use trail_stash.Node.{TrackedEntry, StashNode, fetch_content}
use trail_stash.Node.Receive.{or_insert, new_entry}
use trail_stash.Node.Settle.{Settled, settle_live}
use trail_stash.Node.Settle.Wakes.{settle_live_wakes}
use trail_stash.Node.Linked.{lookup_state-want, get-or_insert}
use trail_stash.Content.Forget.{get_state-forget, forget-IsValid}
use trail_stash.Content.Invariant.{IsValid, want-IsValid, mark_present-IsValid}
use trail_stash.Node.Settle.Once.{is_woken, releases, settle_live-woken}
use trail_stash.Node.Turns.{
  Section, wants, tracks, marks, fetches, writes, forgets, untracks, elsewhere, perform,
  perform_all, receive_sections,
}

marked-IsValid :
    (present : Bool) (hash : ContentHash) (index : ContentIndex)
    → IsValid index
    → IsValid (if present then mark_present hash index else index)
marked-IsValid true hash index v = mark_present-IsValid hash index v
marked-IsValid false hash index v = v

-- How often a list releases the hash.
abbrev pub count_releases : ContentHash → List Settled → ℕ
count_releases h [] = 0
count_releases h (s ∷ settled) =
    let rest = count_releases h settled in ite (bytes_discrete h s.hash) (suc rest) rest

count_releases-append :
    (h : ContentHash) (xs ys : List Settled)
    → count_releases h (xs ++ ys) ≡ count_releases h xs + count_releases h ys
count_releases-append h [] ys = omega arith
count_releases-append h (x ∷ xs) ys = ground (arith, count_releases-append h xs ys)

count_releases_none :
    (h : ContentHash) (xs : List Settled) → releases h xs ≡ false → count_releases h xs ≡ 0
count_releases_none h [] e = refl
count_releases_none h (x ∷ xs) e = ground (arith, count_releases_none h xs)

module _ (w : Iroh) where
  -- The sweep forgets the last reference to a hash, and before it goes on to the map of the tracked entries a
  -- watcher handles a record of the same hash, whose bytes are missing: then the index wants the bytes, and the
  -- settle loop does not chase them.
  pub orphaned_by_sweep :
      (ns ns' : NamespaceId) (entry : DocEntry) (from : EndpointId) (now : ℕ) (node : StashNode w)
      → (forget ns entry.content_hash node.content).1 ≡ true
      → let after =
          (perform_all w
            (forgets ns entry.content_hash
              ∷ (receive_sections w ns' entry from now false ++ untracks entry.content_hash ∷ []))
            node).0 in
        (lookup_state entry.content_hash after.content ≡ some wanted)
        × (HashMap.get bytes_discrete entry.content_hash after.tracked ≡ none)
  unfolding perform_all perform receive_sections
  orphaned_by_sweep ns ns' entry from now node last =
      let hash = entry.content_hash in
      (
        ground (
          arith,
          last,
          lookup_state-want ns' hash hash (forget ns hash node.content).0,
          get_state-forget ns hash node.content hash,
        ),
        ground (
          arith,
          get-remove bytes_discrete hash hash
              (or_insert hash (new_entry w ns' entry from now false) node.tracked).0,
        ),
      )

  settle_live-releases :
      (now : ℕ) (h hash : ContentHash) (entry : TrackedEntry) (present : Bool) (node : StashNode w)
      → (count_releases h (settle_live w now hash entry present node).1 ≤ 1)
        × (releases h (settle_live w now hash entry present node).1 ≡ true
            → is_woken w h (settle_live w now hash entry present node).0 ≡ true)
  unfolding settle_live
  settle_live-releases now h hash entry present node =
      elim (Option-cases (HashMap.get bytes_discrete hash node.tracked)) [
        | inl e ↦ rw (e, settle_live) (omega arith, λ f. absurd (ground (arith, f)))
        | inr (live, e) ↦
            let (list, woken, _) = settle_live_wakes w now hash entry present node live e in
            (ground (arith, list), λ f. ground (arith, f, list, woken))
      ]

  -- The tracked entry of a hash goes only by this section.
  abbrev pub removes : ContentHash → Section w → Bool
  removes h (untracks hash) = ite (bytes_discrete h hash) true false
  removes h (wants ns hash) = false
  removes h (tracks hash entry) = false
  removes h (marks hash) = false
  removes h (fetches hash entry) = false
  removes h (writes now hash entry present) = false
  removes h (forgets ns hash) = false
  removes h (elsewhere docs blobs registry handles watched) = false

  perform-woken :
      (h : ContentHash) (s : Section w) (node : StashNode w)
      → removes h s ≡ false
      → is_woken w h node ≡ true
      → (releases h (perform w s node).1 ≡ false) × (is_woken w h (perform w s node).0 ≡ true)
  unfolding perform fetch_content
  perform-woken h (wants ns hash) node r e = (refl, e)
  perform-woken h (tracks hash entry) node r e =
      (refl, ground (arith, e, get-or_insert hash h entry node.tracked))
  perform-woken h (marks hash) node r e = (refl, e)
  perform-woken h (fetches hash entry) node r e = (refl, e)
  perform-woken h (writes now hash entry present) node r e =
      settle_live-woken w now h hash entry present node e
  perform-woken h (forgets ns hash) node r e = (refl, e)
  perform-woken h (elsewhere docs blobs registry handles watched) node r e = (refl, e)
  perform-woken h (untracks hash) node r e =
      (refl, ground (arith, e, r, get-remove bytes_discrete hash h node.tracked))

  -- What a section releases counts as woken after it.
  perform-releases :
      (h : ContentHash) (s : Section w) (node : StashNode w)
      → (count_releases h (perform w s node).1 ≤ 1)
        × (releases h (perform w s node).1 ≡ true → is_woken w h (perform w s node).0 ≡ true)
  unfolding perform fetch_content
  perform-releases h (writes now hash entry present) node =
      settle_live-releases now h hash entry present node
  perform-releases h (wants ns hash) node = (omega arith, λ e. absurd (ground (arith, e)))
  perform-releases h (tracks hash entry) node = (omega arith, λ e. absurd (ground (arith, e)))
  perform-releases h (marks hash) node = (omega arith, λ e. absurd (ground (arith, e)))
  perform-releases h (fetches hash entry) node = (omega arith, λ e. absurd (ground (arith, e)))
  perform-releases h (forgets ns hash) node = (omega arith, λ e. absurd (ground (arith, e)))
  perform-releases h (untracks hash) node = (omega arith, λ e. absurd (ground (arith, e)))
  perform-releases h (elsewhere docs blobs registry handles watched) node =
      (omega arith, λ e. absurd (ground (arith, e)))

  perform_all-woken :
      (h : ContentHash) (sections : List (Section w)) (node : StashNode w)
      → any (removes h) sections ≡ false
      → is_woken w h node ≡ true
      → count_releases h (perform_all w sections node).1 ≡ 0
  unfolding perform_all
  perform_all-woken h [] node r e = refl
  perform_all-woken h (s ∷ sections) node r e =
      let (none_now, still) = perform-woken h s node (ground (arith, r)) e in
      omega (
        arith,
        count_releases-append h (perform w s node).1
            (perform_all w sections (perform w s node).0).1,
        count_releases_none h (perform w s node).1 none_now,
        perform_all-woken h sections (perform w s node).0 (ground (arith, r)) still,
      )

  -- In whatever order the sections of all tasks take turns, and however old what they carry, the settle loop
  -- releases a hash to be woken at most once, as long as no sweep removes its tracked entry in between.
  pub released_at_most_once :
      (h : ContentHash) (sections : List (Section w)) (node : StashNode w)
      → any (removes h) sections ≡ false
      → count_releases h (perform_all w sections node).1 ≤ 1
  unfolding perform_all
  released_at_most_once h [] node r = omega arith
  released_at_most_once h (s ∷ sections) node r =
      let (few, woken) = perform-releases h s node in
      let after = (perform w s node).0 in
      let split = count_releases-append h (perform w s node).1 (perform_all w sections after).1 in
      elim (Bool-cases (releases h (perform w s node).1)) [
        | inl e ↦
            omega
              (arith, split, few, perform_all-woken h sections after (ground (arith, r)) (woken e))
        | inr e ↦ omega (
          arith,
          split,
          count_releases_none h (perform w s node).1 e,
          released_at_most_once h sections after (ground (arith, r)),
        )
      ]

  pub perform-IsValid :
      (s : Section w) (node : StashNode w)
      → IsValid node.content
      → IsValid (perform w s node).0.content
  unfolding perform fetch_content settle_live
  perform-IsValid (wants ns hash) node v = want-IsValid ns hash node.content v
  perform-IsValid (tracks hash entry) node v = v
  perform-IsValid (marks hash) node v = mark_present-IsValid hash node.content v
  perform-IsValid (fetches hash entry) node v = v
  perform-IsValid (writes now hash entry present) node v =
      elim (Option-cases (HashMap.get bytes_discrete hash node.tracked)) [
        | inl e ↦ rw (e, settle_live) v
        | inr (live, e) ↦ rw (e, settle_live) (marked-IsValid present hash node.content v)
      ]
  perform-IsValid (forgets ns hash) node v = forget-IsValid ns hash node.content v
  perform-IsValid (untracks hash) node v = v
  perform-IsValid (elsewhere docs blobs registry handles watched) node v = v

  -- In whatever order the sections of the tasks take turns, and however old what they carry, the content index
  -- stays valid: it tracks a hash exactly if some namespace references it.
  pub turns-IsValid :
      (sections : List (Section w)) (node : StashNode w)
      → IsValid node.content
      → IsValid (perform_all w sections node).0.content
  unfolding perform_all
  turns-IsValid [] node v = v
  turns-IsValid (s ∷ sections) node v =
      turns-IsValid sections (perform w s node).0 (perform-IsValid s node v)
