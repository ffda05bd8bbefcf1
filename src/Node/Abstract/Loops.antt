-- ===== src/Node/Abstract/Loops.antt =====
-- The watcher and the settle loop of `rust/src/node.rs` on the abstract node.
use trail_stash.Base.{
  ◌⊎◌, All, refl, ap, true, ◌∙◌, ℕ, Bool, ◌≡◌, ap₂, subst, Option, none, some, List, [], ◌∷◌,
  bytes_discrete, arith, inl, inr, Bool-cases, Option-cases,
}
use trail_stash.Content.{is_tracked, ContentHash, NamespaceId, want}
use trail_stash.Content.Laws.{is_tracked_iff, want_effect}
use trail_stash.Content.{is_tracked}
use trail_stash.Content.Invariant.{want-IsValid}
use trail_stash.HashMap
use trail_stash.Iroh.{Iroh, DocEntry, EndpointId}
use trail_stash.Node.{has_blob, StashNode, TrackedEntry, fetch_content}
use trail_stash.Node.Abstract.{
  View, view_of, landed_view, landed_all, heard_view, heard_all, Refers,
}
use trail_stash.Node.Abstract.Index.{view_of-want, view_of-mark_present}
use trail_stash.Node.Linked.{IsValid, receive-IsValid, settle_live-IsValid}
use trail_stash.Node.Receive.{receive, watch, handle_event, insert_remote, LiveEvent, insert, other}
use trail_stash.Node.Run.{obtain-IsValid}
use trail_stash.Node.Settle.{obtain, settle_live, settle_entry, settle_all}

-- Whether the second view is the first with content landed that is referenced.
abbrev pub Lands : View → View → Type 0
Lands v v' = (landed : List ContentHash) × All (Refers v) landed × (v' ≡ landed_all landed v)

pub Lands-after :
    (v v' v'' : View) (h : ContentHash)
    → Refers v h
    → v' ≡ landed_view h v
    → Lands v' v''
    → Lands v v''
Lands-after v v' v'' h r e lands =
    let (landed, all, f) : Lands (landed_view h v) v'' = subst (λ u. Lands u v'') e lands in
    (h ∷ landed, (r, all), f)

module _ (w : Iroh) where
  abbrev pub view : StashNode w → View
  view node = view_of node.registry node.content

  pub same_view :
      (s t : StashNode w) → t.registry ≡ s.registry → t.content ≡ s.content → view t ≡ view s
  same_view s t r c = ap₂ view_of r c

  view-obtain :
      (now : ℕ) (hash : ContentHash) (entry : TrackedEntry) (s : StashNode w)
      → view (obtain w now hash entry s).0 ≡ view s
  unfolding obtain fetch_content
  view-obtain now hash entry s =
      same_view s (obtain w now hash entry s).0 (ground arith) (ground arith)

  tracked_linked :
      (h : ContentHash) (live : TrackedEntry) (s : StashNode w)
      → IsValid w s
      → HashMap.get bytes_discrete h s.tracked ≡ some live
      → is_tracked h s.content ≡ true
  unfolding is_tracked
  tracked_linked h live s v e = ground (arith, e, v.linked h)

  view-settle_live :
      (now : ℕ) (hash : ContentHash) (entry : TrackedEntry) (there : Bool) (s : StashNode w)
      → IsValid w s
      → (view (settle_live w now hash entry there s).0 ≡ view s)
        ⊎ (Refers (view s) hash
            × (view (settle_live w now hash entry there s).0 ≡ landed_view hash (view s)))
  unfolding settle_live
  view-settle_live now hash entry there s v =
      elim (Option-cases (HashMap.get bytes_discrete hash s.tracked)) [
        | inl e ↦ inl (rw (e, settle_live) refl)
        | inr (live, e) ↦ elim (Bool-cases there) [
          | inl f ↦
              let tracked = tracked_linked hash live s v e in
              inr (
                (is_tracked_iff hash s.content v.valid).0 tracked,
                rw (e, settle_live, f) (view_of-mark_present s.registry s.content hash tracked),
              )
          | inr f ↦ inl (rw (e, settle_live, f) refl)
        ]
      ]

  pub view-settle_all :
      (now : ℕ) (list : List (ContentHash × TrackedEntry)) (s : StashNode w)
      → IsValid w s
      → Lands (view s) (view (settle_all w now list s).0)
  unfolding settle_all settle_entry
  view-settle_all now [] s v = ([], tt, refl)
  view-settle_all now ((hash, entry) ∷ rest) s v =
      let (s', there) = obtain w now hash entry s in
      let v' = obtain-IsValid w now hash entry s v in
      let t = (settle_live w now hash entry there s').0 in
      let more = view-settle_all now rest t (settle_live-IsValid w now hash entry there s' v') in
      subst (λ u. Lands u (view (settle_all w now ((hash, entry) ∷ rest) s).0))
        (view-obtain now hash entry s)
        (elim (view-settle_live now hash entry there s' v') [
          | inl e ↦ subst (λ u. Lands u (view (settle_all w now rest t).0)) e more
          | inr (r, e) ↦ Lands-after (view s') (view t) _ hash r e more
        ])

  want_tracked :
      (ns : NamespaceId) (h : ContentHash) (s : StashNode w)
      → IsValid w s
      → is_tracked h (want ns h s.content) ≡ true
  want_tracked ns h s v =
      (is_tracked_iff h (want ns h s.content) (want-IsValid ns h s.content v.valid)).1
        (ns, ground (arith, (want_effect ns h s.content ns h).0))

  pub view-receive :
      (ns : NamespaceId) (entry : DocEntry) (from : EndpointId) (now : ℕ) (s : StashNode w)
      → IsValid w s
      → view (receive w ns entry from now s).0
        ≡ heard_view ns entry.content_hash (has_blob w s entry.content_hash) (view s)
  unfolding receive
  view-receive ns entry from now s v =
      let hash = entry.content_hash in
      let wanted = want ns hash s.content in
      let first = view_of-want s.registry s.content ns hash in
      elim (Bool-cases (has_blob w s hash)) [
        | inl e ↦
            rw (e, receive)
              (view_of-mark_present s.registry wanted hash (want_tracked ns hash s v)
                ∙ ap (landed_view hash) first)
        | inr e ↦ rw (e, receive) first
      ]

  pub view-watch :
      (ns : NamespaceId) (events : List (Option LiveEvent)) (s : StashNode w)
      → IsValid w s
      → view (watch w ns events s).0 ≡ heard_all (has_blob w s) ns events (view s)
  unfolding watch handle_event insert_remote receive
  view-watch ns [] s v = refl
  view-watch ns (none ∷ events) s v = refl
  view-watch ns (some (insert entry from now) ∷ events) s v =
      view-watch ns events (receive w ns entry from now s).0
        (receive-IsValid w ns entry from now s v)
      ∙ ap (heard_all (has_blob w s) ns events) (view-receive ns entry from now s v)
  view-watch ns (some other ∷ events) s v = view-watch ns events s v
