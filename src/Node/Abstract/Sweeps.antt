-- ===== src/Node/Abstract/Sweeps.antt =====
-- `prune_once` of `rust/src/node.rs` on the abstract node.
use trail_stash.Base.{
  ℕ, true, ◌&&◌, ◌≡◌, refl, ap, ◌∙◌, List, [], ◌∷◌, bytes_discrete, arith, inl, inr, Bool-cases,
}
use trail_stash.Content.{ContentHash, NamespaceId, is_tracked, is_tracked_for, is_present}
use trail_stash.Content.Laws.{forget_effect, is_tracked_iff}
use trail_stash.HashSet
use trail_stash.Iroh.{Iroh}
use trail_stash.Node.{StashNode}
use trail_stash.Node.Abstract.{view_of, Swept}
use trail_stash.Node.Abstract.Index.{present_tracked}
use trail_stash.Node.Abstract.Loops.{view}
use trail_stash.Node.Linked.{IsValid, forget_one-IsValid, forget_all-IsValid}
use trail_stash.Node.Prune.{forget_one, forget_all, prune_namespace, prune_all, prune_once}
use trail_stash.Node.Release.{forget_one-content}
use trail_stash.Node.Run.{prune_all-IsValid}
use trail_stash.Node.Sweep.{keeps, prune_once_releases}
use trail_stash.Result.{Result-cases, is_ok}
use trail_stash.Subscriptions.{known_namespaces}

module _ (w : Iroh) where
  -- What forgetting leaves of a node.
  record Trimmed (s t : StashNode w) : Type 0 where
    registry : t.registry ≡ s.registry
    refers :
        (ns : NamespaceId) (h : ContentHash)
        → is_tracked_for ns h t.content ≡ true
        → is_tracked_for ns h s.content ≡ true
    tracked : (h : ContentHash) → is_tracked h t.content ≡ true → is_tracked h s.content ≡ true
    present :
        (h : ContentHash)
        → is_present h t.content ≡ (is_present h s.content && is_tracked h t.content)

  untrimmed : (s : StashNode w) → Trimmed s s
  untrimmed s = record {
    registry = refl;
    refers = λ ns h e. e;
    tracked = λ h e. e;
    present = λ h. ground (arith, present_tracked h s.content);
  }

  Trimmed-then : {s t u : StashNode w} → Trimmed s t → Trimmed t u → Trimmed s u
  Trimmed-then a b = record {
    registry = b.registry ∙ a.registry;
    refers = λ ns h e. a.refers ns h (b.refers ns h e);
    tracked = λ h e. a.tracked h (b.tracked h e);
    present = λ h. ground (arith, a.present h, b.present h, b.tracked h);
  }

  forget_one-Trimmed :
      (ns : NamespaceId) (hash : ContentHash) (s : StashNode w)
      → IsValid w s
      → Trimmed s (forget_one w ns hash s).0
  unfolding forget_one
  forget_one-Trimmed ns hash s v =
      let v' = forget_one-IsValid w ns hash s v in
      let same = forget_one-content w ns hash s in
      let refers : (ns' : NamespaceId) (h : ContentHash)
          → is_tracked_for ns' h (forget_one w ns hash s).0.content ≡ true
          → is_tracked_for ns' h s.content ≡ true =
        λ ns' h e. ground (arith, same, e, (forget_effect ns hash s.content ns' h v.valid).0) in
      record {
        registry = ground arith;
        refers = refers;
        tracked = λ h e.
            let (ns', named) = (is_tracked_iff h _ v'.valid).0 e in
            (is_tracked_iff h s.content v.valid).1 (ns', refers ns' h named);
        present = λ h. rw same (forget_effect ns hash s.content ns h v.valid).1;
      }

  forget_all-Trimmed :
      (ns : NamespaceId) (hashes : List ContentHash) (s : StashNode w)
      → IsValid w s
      → Trimmed s (forget_all w ns hashes s).0
  unfolding forget_all
  forget_all-Trimmed ns [] s v = untrimmed s
  forget_all-Trimmed ns (hash ∷ hashes) s v =
      Trimmed-then (forget_one-Trimmed ns hash s v)
        (forget_all-Trimmed ns hashes (forget_one w ns hash s).0 (forget_one-IsValid w ns hash s v))

  prune_all-Trimmed :
      (now : ℕ) (namespaces : List NamespaceId) (s : StashNode w)
      → IsValid w s
      → Trimmed s (prune_all w now namespaces s).0
  unfolding prune_all prune_namespace
  prune_all-Trimmed now [] s v = untrimmed s
  prune_all-Trimmed now (k ∷ namespaces) s v =
      elim (Bool-cases (HashSet.contains bytes_discrete k s.handles)) [
        | inr closed ↦ rw (prune_all, closed) (prune_all-Trimmed now namespaces s v)
        | inl opened ↦ elim (Result-cases (w.get_many s.docs k)) [
          | inr (msg, f) ↦ rw (prune_all, opened, f) (untrimmed s)
          | inl (entries, f) ↦
              rw (prune_all, opened, f)
                (Trimmed-then (forget_all-Trimmed k _ s v) (
                  prune_all-Trimmed now namespaces (prune_namespace w now k entries s).0
                    (forget_all-IsValid w k _ s v)))
        ]
      ]

  pub prune_once-Swept :
      (now : ℕ) (s : StashNode w)
      → IsValid w s
      → Swept
          (view w s)
          (view w (prune_once w now s).0)
          (is_ok (prune_once w now s).1)
          (λ ns h. keeps w now ns h s)
  unfolding prune_once
  prune_once-Swept now s v =
      let namespaces = known_namespaces s.registry in
      let t = (prune_all w now namespaces s).0 in
      let trimmed = prune_all-Trimmed now namespaces s v in
      let v' = prune_all-IsValid w now namespaces s v in
      record {
        known = ap (λ r. (view_of r t.content).known) trimmed.registry;
        woken = ap (λ r. (view_of r t.content).woken) trimmed.registry;
        refers = trimmed.refers;
        kept = λ completed ns h. elim (Result-cases (prune_once w now s).1) [
          | inl (n, e) ↦ prune_once_releases w now s n v e ns h
          | inr (msg, e) ↦ absurd (ground (arith, e, completed))
        ];
        holds = λ h. (
          λ e. (
            ground (arith, e, trimmed.present h),
            (is_tracked_iff h t.content v'.valid).0 (ground (arith, e, trimmed.present h)),
          ),
          λ (e, named).
              ground (arith, e, trimmed.present h, (is_tracked_iff h t.content v'.valid).1 named),
        );
      }
