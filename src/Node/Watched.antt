-- ===== src/Node/Watched.antt =====
-- The calls of `spawn_watch` of `rust/src/node.rs`. When a watcher ends is in Node/Watchers.
use trail_stash.Base.{
  ℕ, suc, true, ◌≡◌, refl, sym, ap, ◌∙◌, Option, List, [], ◌∷◌, bytes_discrete, arith, if_neg, ite,
  if◌then◌else◌, inl, inr, Bool-cases,
}
use trail_stash.Content.{NamespaceId}
use trail_stash.HashSet
use trail_stash.HashSet.{HashSet, contains-insert}
use trail_stash.Iroh.{Iroh}
use trail_stash.Mls.{DeliveryService}
use trail_stash.Node.{StashNode}
use trail_stash.Node.Prune.{prune_once}
use trail_stash.Node.Receive.{receive}
use trail_stash.Node.Register.{open_doc, enroll, register, unsubscribe}
use trail_stash.Node.Run.{spawned, Step, Reach}
use trail_stash.Node.Settle.{outstanding, settle_once}
use trail_stash.Retention.{RetentionPolicy}
use mathlib.Core.Path.{subst}
use trail_stash.Subscriptions.Laws.{register_effect, unsubscribe_effect}
use trail_stash.Subscriptions.{apns, is_known, PushSubscription}
use trail_stash.Result.{ok, Result-cases}
use trail_stash.Text.{Text}
use trail_stash.Node.Frame.{
  frame, settle_all-frame, prune_all-frame, watch-frame, put_content-frame, sync_now-frame,
}

-- How many watchers were spawned for a namespace.
abbrev pub count_watchers : NamespaceId → List NamespaceId → ℕ
count_watchers ns [] = 0
count_watchers ns (k ∷ watched) =
    let rest = count_watchers ns watched in ite (bytes_discrete ns k) (suc rest) rest

module _ (w : Iroh) where
  -- The watchers that were spawned fit the registry, and what is known is open.
  pub record IsWatched (node : StashNode w) : Type 0 where
    pub watchers :
        (ns : NamespaceId)
        → count_watchers ns node.spawned_watchers ≡ (if is_known ns node.registry then 1 else 0)
    pub opened :
        (ns : NamespaceId)
        → is_known ns node.registry ≡ true
        → HashSet.contains bytes_discrete ns node.handles ≡ true

  framed :
      (node after : StashNode w) → frame w after ≡ frame w node → IsWatched node → IsWatched after
  framed node after e v = record {
    watchers = λ ns.
        ap (λ f. count_watchers ns f.2) e
        ∙ v.watchers ns
        ∙ ap (λ f. if is_known ns f.0 then 1 else 0) (sym e);
    opened = λ ns known.
        ap (λ f. HashSet.contains bytes_discrete ns f.1) e
        ∙ v.opened ns (ap (λ f. is_known ns f.0) (sym e) ∙ known);
  }

  enroll-IsWatched :
      (ns : NamespaceId) (sub : Option PushSubscription) (node : StashNode w)
      → IsWatched node
      → HashSet.contains bytes_discrete ns node.handles ≡ true
      → IsWatched (enroll w ns sub node)
  unfolding enroll
  enroll-IsWatched ns sub node v opened = record {
    watchers = λ k.
        let (first, known, _) = register_effect ns sub node.registry k any_target in
        ground (arith, first, known, v.watchers k, v.watchers ns);
    opened = λ k known'.
        let known = (register_effect ns sub node.registry k any_target).1 in
        elim (bytes_discrete k ns) [
          | yes p ↦
              subst (λ j. HashSet.contains bytes_discrete j node.handles ≡ true) (sym p) opened
          | no np ↦ v.opened k (sym (if_neg (bytes_discrete k ns) np _ _) ∙ sym known ∙ known')
        ];
  }
    where
      any_target : PushSubscription
      any_target = record { platform = apns; token = [] }

  -- The handle of a namespace, where it is opened.
  open_doc-IsWatched :
      (ns : NamespaceId) (node : StashNode w)
      → IsWatched node
      → IsWatched (open_doc w ns node).0
        × ((open_doc w ns node).1 ≡ ok tt
            → HashSet.contains bytes_discrete ns (open_doc w ns node).0.handles ≡ true)
  unfolding open_doc
  open_doc-IsWatched ns node v =
      elim (Bool-cases (HashSet.contains bytes_discrete ns node.handles)) [
        | inl e ↦ rw (e, open_doc) (v, λ _. e)
        | inr e ↦ elim (Result-cases (w.import_namespace node.docs ns)) [
          | inr (msg, f) ↦ rw (e, open_doc, f) (v, λ bad. cc)
          | inl (docs, f) ↦ elim (Result-cases (w.start_sync docs ns [])) [
            | inr (msg, g) ↦
                rw (e, open_doc, f, g) (framed node (record node { docs = docs }) refl v, λ bad. cc)
            | inl (docs', g) ↦
                rw (e, open_doc, f, g)
                  (
                    record {
                      watchers = v.watchers;
                      opened = λ k known. ground (
                        arith,
                        v.opened k known,
                        contains-insert bytes_discrete ns k node.handles,
                      );
                    },
                    λ _. ground (arith, contains-insert bytes_discrete ns ns node.handles),
                  )
          ]
        ]
      ]

  register-IsWatched :
      (ticket : Text) (sub : Option PushSubscription) (node : StashNode w)
      → IsWatched node
      → IsWatched (register w ticket sub node).0
  unfolding register
  register-IsWatched ticket sub node v = elim (Result-cases (w.parse_ticket ticket)) [
    | inr (msg, e) ↦ rw (e, register) v
    | inl (t, e) ↦
        let ns = w.ticket_namespace t in
        let (held, there) = open_doc-IsWatched ns node v in
        elim (Result-cases (open_doc w ns node).1) [
          | inr (msg, f) ↦ rw (e, register, f) held
          | inl (tt, f) ↦
              rw (e, register, f) (enroll-IsWatched ns sub (open_doc w ns node).0 held (there f))
        ]
  ]

  pub Step-IsWatched : {s t : StashNode w} → Step w s t → IsWatched s → IsWatched t
  unfolding settle_once prune_once unsubscribe receive is_known
  Step-IsWatched {s} (Step.received ns entry from now) v = framed s _ refl v
  Step-IsWatched {s} (Step.watched ns events) v = framed s _ (watch-frame w ns events s) v
  Step-IsWatched {s} (Step.settled now) v =
      framed s _ (settle_all-frame w now (outstanding s.tracked) s) v
  Step-IsWatched {s} (Step.pruned now) v = framed s _ (prune_all-frame w now _ s) v
  Step-IsWatched {s} (Step.put ns hash bytes) v = framed s _ (put_content-frame w ns hash bytes s) v
  Step-IsWatched {s} (Step.registered ticket sub) v = register-IsWatched ticket sub s v
  Step-IsWatched {s} (Step.unsubscribed ns sub) v =
      let known = (unsubscribe_effect ns sub s.registry ns sub).1 in
      record {
        watchers = λ k.
            v.watchers k
            ∙ ap (λ r. if HashSet.contains bytes_discrete k r then 1 else 0) (sym known);
        opened = λ k e. v.opened k (ap (HashSet.contains bytes_discrete k) (sym known) ∙ e);
      }
  Step-IsWatched {s} (Step.synced ns peers) v = framed s _ (sync_now-frame w ns peers s) v
  Step-IsWatched {s} (Step.outside docs blobs) v = framed s _ refl v

  -- In every state that a fresh node reaches by operations that take effect one after the other, `spawn_watch` has been
  -- called exactly once for each namespace that the registry knows and never for any other, however often
  -- it was registered and whether or not that watcher still runs; and every known namespace has its handle, so no
  -- sweep passes it over.
  pub reachable-IsWatched :
      (docs : w.Docs) (blobs : w.Blobs) (delivery : DeliveryService) (retention : RetentionPolicy)
      (node : StashNode w)
      → Reach w (spawned w docs blobs delivery retention) node
      → IsWatched node
  unfolding is_known HashSet.contains
  reachable-IsWatched docs blobs delivery retention node Reach.here = record {
    watchers = λ ns. refl;
    opened = λ ns known. absurd (ground (arith, known));
  }
  reachable-IsWatched docs blobs delivery retention node (Reach.next r st) =
      Step-IsWatched st (reachable-IsWatched docs blobs delivery retention _ r)
