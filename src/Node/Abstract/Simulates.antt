-- ===== src/Node/Abstract/Simulates.antt =====
-- Every operation of the node of `rust/src/node.rs` does on the abstract node what it promises.
use trail_stash.Base.{
  refl, Bool, true, false, ◌≡◌, ap, ◌∙◌, Option, Bytes, arith, inl, inr, if◌then◌else◌, Bool-cases,
}
use trail_stash.Content.{ContentHash, NamespaceId}
use trail_stash.Content.Laws.{is_tracked_iff}
use trail_stash.Iroh.{Iroh}
use trail_stash.Mls.{DeliveryService}
use trail_stash.Node.{StashNode, has_blob}
use trail_stash.Node.Abstract.{
  View, Swept, registered_view, unsubscribed_view, landed_view, heard_view, heard_all,
}
use trail_stash.Node.Abstract.Index.{view_of-register, view_of-unsubscribe, view_of-mark_present}
use trail_stash.Node.Abstract.Loops.{
  view, same_view, Lands, view-settle_all, view-receive, view-watch,
}
use trail_stash.Node.Abstract.Sweeps.{prune_once-Swept}
use trail_stash.Node.Frame.{put_content-frame, sync_now-frame}
use trail_stash.Node.Linked.{IsValid}
use trail_stash.Node.Prune.{prune_once}
use trail_stash.Node.Register.{sync_now, register, unsubscribe, open_doc, enroll}
use trail_stash.Node.Run.{Step, Reach, spawned, reachable-IsValid, sync_now-ledgers}
use trail_stash.Node.Serve.{PutOutcome, stored, put_content, store_bytes}
use trail_stash.Node.Serve.Stored.{put_content_stored}
use trail_stash.Node.Settle.{outstanding, settle_once}
use trail_stash.Node.Sweep.{keeps}
use trail_stash.Result.{Result, ok, err, is_ok, Result-cases}
use trail_stash.Retention.{RetentionPolicy}
use trail_stash.Subscriptions.{PushSubscription}
use trail_stash.Text.{Text}

-- Whether an upload is answered as stored.
abbrev pub is_stored : Result Text PutOutcome → Bool
is_stored (ok stored) = true
is_stored (ok PutOutcome.unknown_namespace) = false
is_stored (ok PutOutcome.untracked_hash) = false
is_stored (ok PutOutcome.hash_mismatch) = false
is_stored (err e) = false

module _ (w : Iroh) where
  -- What a registration promises, by its answer.
  abbrev pub Registered :
      Text → Option PushSubscription → Result Text NamespaceId → View → View → Type 0
  Registered ticket sub (ok ns) v v' =
      ((t : w.Ticket) × (w.parse_ticket ticket ≡ ok t) × (w.ticket_namespace t ≡ ns))
      × (v' ≡ registered_view ns sub v)
  Registered ticket sub (err e) v v' = v' ≡ v

  -- What each operation promises of the state before it and the state after it.
  abbrev pub Promise : {s t : StashNode w} → Step w s t → Type 0
  Promise {s} {t} (Step.received ns entry from now) =
      view w t ≡ heard_view ns entry.content_hash (has_blob w s entry.content_hash) (view w s)
  Promise {s} {t} (Step.watched ns events) =
      view w t ≡ heard_all (has_blob w s) ns events (view w s)
  Promise {s} {t} (Step.settled now) = Lands (view w s) (view w t)
  Promise {s} {t} (Step.pruned now) =
      Swept (view w s) (view w t) (is_ok (prune_once w now s).1) (λ ns h. keeps w now ns h s)
  Promise {s} {t} (Step.put ns hash bytes) =
      let answer = (put_content w ns hash bytes s).1 in
      (is_stored answer ≡ true → (view w s).refers ns hash ≡ true)
      × (view w t ≡ (if is_stored answer then landed_view hash (view w s) else view w s))
  Promise {s} {t} (Step.registered ticket sub) =
      Registered ticket sub (register w ticket sub s).1 (view w s) (view w t)
  Promise {s} {t} (Step.unsubscribed ns sub) = view w t ≡ unsubscribed_view ns sub (view w s)
  Promise {s} {t} (Step.synced ns peers) = view w t ≡ view w s
  Promise {s} {t} (Step.outside docs blobs) = view w t ≡ view w s

  open_doc-kept :
      (ns : NamespaceId) (s : StashNode w)
      → ((open_doc w ns s).0.registry ≡ s.registry) × ((open_doc w ns s).0.content ≡ s.content)
  unfolding open_doc
  open_doc-kept ns s = (ground arith, ground arith)

  register-Registered :
      (ticket : Text) (sub : Option PushSubscription) (s : StashNode w)
      → Registered ticket sub
          (register w ticket sub s).1
          (view w s)
          (view w (register w ticket sub s).0)
  unfolding register enroll
  register-Registered ticket sub s = elim (Result-cases (w.parse_ticket ticket)) [
    | inr (msg, e) ↦ rw (e, register) refl
    | inl (t, e) ↦
        let k = w.ticket_namespace t in
        let opened = (open_doc w k s).0 in
        let (registry, content) = open_doc-kept k s in
        let same = same_view w s opened registry content in
        elim (Result-cases (open_doc w k s).1) [
          | inr (msg, f) ↦ rw (e, register, f) same
          | inl (_, f) ↦
              rw (e, register, f)
                (
                  (t, e, refl),
                  view_of-register opened.registry opened.content k sub
                      ∙ ap (registered_view k sub) same,
                )
        ]
  ]

  is_stored_iff : (answer : Result Text PutOutcome) → is_stored answer ≡ true → answer ≡ ok stored
  is_stored_iff (ok stored) e = refl
  is_stored_iff (ok PutOutcome.unknown_namespace) e = absurd (ground (arith, e))
  is_stored_iff (ok PutOutcome.untracked_hash) e = absurd (ground (arith, e))
  is_stored_iff (ok PutOutcome.hash_mismatch) e = absurd (ground (arith, e))
  is_stored_iff (err m) e = absurd (ground (arith, e))

  unstored-content :
      (ns : NamespaceId) (hash : ContentHash) (bytes : Bytes) (s : StashNode w)
      → is_stored (put_content w ns hash bytes s).1 ≡ false
      → (put_content w ns hash bytes s).0.content ≡ s.content
  unfolding put_content store_bytes
  unstored-content ns hash bytes s e = ground (arith, e)

  put-Promise :
      (ns : NamespaceId) (hash : ContentHash) (bytes : Bytes) (s : StashNode w)
      → IsValid w s
      → Promise {s = s} (Step.put ns hash bytes)
  put-Promise ns hash bytes s v =
      let registry = ap (λ f. f.0) (put_content-frame w ns hash bytes s) in
      elim (Bool-cases (is_stored (put_content w ns hash bytes s).1)) [
        | inl e ↦
            let (b', added, named, hashed, after) =
              put_content_stored w ns hash bytes s (is_stored_iff _ e) in
            (
              λ _. named,
              rw (e, after)
                  (view_of-mark_present s.registry s.content hash
                    ((is_tracked_iff hash s.content v.valid).1 (ns, named))),
            )
        | inr e ↦ (
          λ f. absurd (ground (arith, e, f)),
          rw e (
              same_view w s (put_content w ns hash bytes s).0 registry
                (unstored-content ns hash bytes s e)),
        )
      ]

  Step-Promise : {s t : StashNode w} (st : Step w s t) → IsValid w s → Promise st
  unfolding settle_once prune_once unsubscribe
  Step-Promise {s} (Step.received ns entry from now) v = view-receive w ns entry from now s v
  Step-Promise {s} (Step.watched ns events) v = view-watch w ns events s v
  Step-Promise {s} (Step.settled now) v = view-settle_all w now (outstanding s.tracked) s v
  Step-Promise {s} (Step.pruned now) v = prune_once-Swept w now s v
  Step-Promise {s} (Step.put ns hash bytes) v = put-Promise ns hash bytes s v
  Step-Promise {s} (Step.registered ticket sub) v = register-Registered ticket sub s
  Step-Promise {s} (Step.unsubscribed ns sub) v = view_of-unsubscribe s.registry s.content ns sub
  Step-Promise {s} (Step.synced ns peers) v =
      same_view w s (sync_now w ns peers s).0 (ap (λ f. f.0) (sync_now-frame w ns peers s))
        (sync_now-ledgers w ns peers s).0
  Step-Promise (Step.outside docs blobs) v = refl

  -- In every state that a fresh node reaches by operations that take effect one after the other, the next one does
  -- to the abstract node exactly what it promises. A record makes its reference, and its content is there from then
  -- on if the store has the bytes; the events of a watcher do so up to the first error. An upload lands its content,
  -- which the namespace references, if it is answered as stored, and changes nothing otherwise. A registration that
  -- succeeds makes the namespace of its ticket known and adds its device to those that are woken, and one that fails
  -- changes nothing; an unsubscription takes that one device out. A pass of the settle loop only lands content that
  -- is referenced. A sweep touches no registration and makes no reference; what was there stays exactly if some
  -- namespace still references it; and if no error ends it, a reference stays exactly if its namespace is not known,
  -- not open or not readable, if a record that is kept names it, or if none that is released does.
  pub reachable_simulates :
      (docs : w.Docs) (blobs : w.Blobs) (delivery : DeliveryService) (retention : RetentionPolicy)
      (node after : StashNode w)
      → Reach w (spawned w docs blobs delivery retention) node
      → (step : Step w node after) → Promise step
  reachable_simulates docs blobs delivery retention node after r step =
      Step-Promise step (reachable-IsValid w docs blobs delivery retention node r)
