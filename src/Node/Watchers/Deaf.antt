-- ===== src/Node/Watchers/Deaf.antt =====
-- What becomes of a namespace of the node of `rust/src/node.rs` once its watcher has ended.
use trail_stash.Base.{
  ◌≤◌, ◌≡◌, ap, ◌∙◌, Bool, true, false, Option, List, ◌∷◌, bytes_discrete, arith, any, is_none,
  if◌then◌else◌, inl, inr,
}
use trail_stash.Content.{NamespaceId, ContentHash, is_tracked_for}
use trail_stash.HashSet
use trail_stash.Iroh.{Iroh}
use trail_stash.Node.{StashNode}
use trail_stash.Node.Frame.{
  Frame, settle_all-frame, prune_all-frame, watch-frame, put_content-frame, sync_now-frame,
}
use trail_stash.Node.Linked.{IsValid}
use trail_stash.Node.Prune.{prune_once}
use trail_stash.Node.Receive.{LiveEvent, watch, receive}
use trail_stash.Node.Register.{register, unsubscribe, open_doc, enroll}
use trail_stash.Node.Run.{Step, Step-IsValid}
use trail_stash.Node.Settle.{outstanding, settle_once}
use trail_stash.Node.Watched.{IsWatched, Step-IsWatched, count_watchers}
use trail_stash.Node.Watchers.{Process, listens, hear, Turn, hears, ends, acts, Course, here, next}
use trail_stash.Node.Watchers.Adds.{Step-Within, watch-Within}
use trail_stash.Result.{Result-cases}
use trail_stash.Subscriptions.{is_known, PushSubscription}
use trail_stash.Subscriptions.Laws.{register_effect, unsubscribe_effect}
use trail_stash.Subscriptions.History.{any_target}
use trail_stash.Text.{Text}

module _ (w : Iroh) (ns : NamespaceId) where
  open_doc-registry :
      (k : NamespaceId) (node : StashNode w) → (open_doc w k node).0.registry ≡ node.registry
  unfolding open_doc
  open_doc-registry k node = ground arith

  enroll-known :
      (k : NamespaceId) (sub : Option PushSubscription) (node : StashNode w)
      → is_known ns node.registry ≡ true
      → is_known ns (enroll w k sub node).registry ≡ true
  unfolding enroll
  enroll-known k sub node e =
      ground (arith, e, (register_effect k sub node.registry ns any_target).1)

  register-known :
      (ticket : Text) (sub : Option PushSubscription) (node : StashNode w)
      → is_known ns node.registry ≡ true
      → is_known ns (register w ticket sub node).0.registry ≡ true
  unfolding register
  register-known ticket sub node e = elim (Result-cases (w.parse_ticket ticket)) [
    | inr (msg, f) ↦ rw (f, register) e
    | inl (t, f) ↦
        let k = w.ticket_namespace t in
        let same = ap (is_known ns) (open_doc-registry k node) ∙ e in
        elim (Result-cases (open_doc w k node).1) [
          | inr (msg, g) ↦ rw (f, register, g) same
          | inl (tt, g) ↦ rw (f, register, g) (enroll-known k sub (open_doc w k node).0 same)
        ]
  ]

  framed_known :
      (after before : Frame w)
      → after ≡ before
      → is_known ns before.0 ≡ true
      → is_known ns after.0 ≡ true
  framed_known after before same e = ap (λ f. is_known ns f.0) same ∙ e

  -- The node forgets no namespace.
  Step-known :
      {s t : StashNode w}
      → Step w s t
      → is_known ns s.registry ≡ true
      → is_known ns t.registry ≡ true
  unfolding settle_once prune_once unsubscribe receive is_known
  Step-known (Step.received k entry from now) e = e
  Step-known {s} (Step.watched k events) e = framed_known _ _ (watch-frame w k events s) e
  Step-known {s} (Step.settled now) e =
      framed_known _ _ (settle_all-frame w now (outstanding s.tracked) s) e
  Step-known {s} (Step.pruned now) e = framed_known _ _ (prune_all-frame w now _ s) e
  Step-known {s} (Step.put k hash bytes) e = framed_known _ _ (put_content-frame w k hash bytes s) e
  Step-known {s} (Step.registered ticket sub) e = register-known ticket sub s e
  Step-known {s} (Step.unsubscribed k sub) e =
      ap (HashSet.contains bytes_discrete ns) (unsubscribe_effect k sub s.registry ns sub).1 ∙ e
  Step-known {s} (Step.synced k peers) e = framed_known _ _ (sync_now-frame w k peers s) e
  Step-known {s} (Step.outside docs blobs) e = e

  -- The watcher of a namespace that the node knows has ended.
  pub record IsDeaf (p : Process w) : Type 0 where
    pub valid : IsValid w p.node
    pub watched : IsWatched w p.node
    pub known : is_known ns p.node.registry ≡ true
    pub over : 1 ≤ count_watchers ns p.ended

  IsDeaf-listens : (p : Process w) → IsDeaf p → listens w ns p ≡ false
  IsDeaf-listens p d = ground (arith, d.over, d.known, d.watched.watchers ns)

  -- No reference of the namespace is new.
  abbrev pub NoneNew : Process w → Process w → Type 0
  NoneNew q p =
      (h : ContentHash)
      → is_tracked_for ns h q.node.content ≡ true
      → is_tracked_for ns h p.node.content ≡ true

  watch-steps :
      (k : NamespaceId) (events : List (Option LiveEvent)) (s : StashNode w)
      → Step w s (watch w k events s).0
  watch-steps k events s = Step.watched k events

  ended_more :
      (k : NamespaceId) (b : Bool) (ended : List NamespaceId)
      → 1 ≤ count_watchers ns ended
      → 1 ≤ count_watchers ns (if b then k ∷ ended else ended)
  ended_more k b ended e = ground (arith, e)

  Turn-IsDeaf : {p q : Process w} → Turn w p q → IsDeaf p → IsDeaf q × NoneNew q p
  unfolding hear
  Turn-IsDeaf {p} (hears k events runs) d =
      let st = watch-steps k events p.node in
      (
        record {
          valid = Step-IsValid w st d.valid;
          watched = Step-IsWatched w st d.watched;
          known = Step-known st d.known;
          over = ended_more k (any is_none events) p.ended d.over;
        },
        λ h.
            watch-Within w ns h k events p.node
              (λ same. absurd (ground (arith, runs, same, IsDeaf-listens p d))),
      )
  Turn-IsDeaf {p} (ends k runs) d = (
    record {
      valid = d.valid;
      watched = d.watched;
      known = d.known;
      over = ended_more k true p.ended d.over;
    },
    λ h e. e,
  )
  Turn-IsDeaf {p} (acts st quiet) d = (
    record {
      valid = Step-IsValid w st d.valid;
      watched = Step-IsWatched w st d.watched;
      known = Step-known st d.known;
      over = d.over;
    },
    λ h. Step-Within w ns h st quiet d.valid,
  )

  -- Once the watcher of a namespace that the node knows has ended, none listens again, whatever happens and whoever
  -- registers the namespace again, and the index takes up no new reference of it.
  pub deaf_for_good :
      (p q : Process w) → IsDeaf p → Course w p q → (listens w ns q ≡ false) × NoneNew q p
  deaf_for_good p q d c = let (d', new) = course c in (IsDeaf-listens q d', new)
    where
      course : {r : Process w} → Course w p r → IsDeaf r × NoneNew r p
      course here = (d, λ h e. e)
      course (next c t) =
          let (d', new) = course c in
          let (d'', newer) = Turn-IsDeaf t d' in (d'', λ h e. new h (newer h e))
