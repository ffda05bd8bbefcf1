-- ===== src/Node/Linked.antt =====
-- The two ledgers of `rust/src/node.rs` agree: the settle loop tracks what the content index tracks,
-- and bytes that the loop counts as present the index counts as present.
use trail_stash.Base.{
  inr, inl, Option-cases, Bool-cases, ℕ, Bool, true, false, not, ◌||◌, Option, none, some, List, [],
  ◌∷◌, bytes_discrete, if◌then◌else◌, ◌≡◌, refl, arith, ite, unwrap_or,
}
use trail_stash.Content
use trail_stash.Content.{
  ContentIndex, ContentHash, NamespaceId, State, present, wanted, is_present_state, lookup_state,
  want, mark_present, forget,
}
use trail_stash.Content.Invariant.{get-or_wanted, want-IsValid, mark_present-IsValid}
use trail_stash.Content.Forget.{get_state-forget, forget-IsValid}
use trail_stash.HashMap
use trail_stash.HashMap.{HashMap, get-insert, get-remove}
use trail_stash.HashMap.Distinct.{Distinct, insert-Distinct, remove-Distinct}
use trail_stash.Iroh.{Iroh, EndpointId, DocEntry}
use trail_stash.Node.{TrackedEntry, StashNode, has_blob}
use trail_stash.Node.Settle.Wakes.{released_lem}
use trail_stash.Node.Prune.{forget_one, forget_all}
use trail_stash.Node.Receive.{or_insert, new_entry, receive}
use trail_stash.Node.Settle.{released, settle_live}

abbrev pub fits : Option State → Option TrackedEntry → Bool
fits none none = true
fits (some s) none = false
fits none (some e) = false
fits (some s) (some e) = not e.content_present || is_present_state s

abbrev pub Tracked : Type 0
Tracked = HashMap ContentHash TrackedEntry

pub record IsLinked (content : ContentIndex) (tracked : Tracked) : Type 0 where
  pub valid : Content.Invariant.IsValid content
  pub distinct : Distinct bytes_discrete tracked
  pub linked :
      (h : ContentHash)
      → fits (lookup_state h content) (HashMap.get bytes_discrete h tracked) ≡ true

pub lookup_state-want :
    (ns : NamespaceId) (hash h : ContentHash) (index : ContentIndex)
    → lookup_state h (want ns hash index)
      ≡ ite
          (bytes_discrete h hash)
          (some (unwrap_or wanted (lookup_state hash index)))
          (lookup_state h index)
unfolding want
lookup_state-want ns hash h index = get-or_wanted hash h index.state

abbrev promoted : Option State → Option State
promoted none = none
promoted (some s) = some present

pub lookup_state-mark_present :
    (hash h : ContentHash) (index : ContentIndex)
    → lookup_state h (mark_present hash index)
      ≡ ite (bytes_discrete h hash) (promoted (lookup_state hash index)) (lookup_state h index)
unfolding mark_present
lookup_state-mark_present hash h index =
    ground (arith, get-insert bytes_discrete hash h present index.state)

pub get-or_insert :
    (hash h : ContentHash) (fresh : TrackedEntry) (tracked : Tracked)
    → HashMap.get bytes_discrete h (or_insert hash fresh tracked).0
      ≡ ite
          (bytes_discrete h hash)
          (some (unwrap_or fresh (HashMap.get bytes_discrete hash tracked)))
          (HashMap.get bytes_discrete h tracked)
unfolding or_insert
get-or_insert hash h fresh tracked = ground (arith, get-insert bytes_discrete hash h fresh tracked)

or_insert-Distinct :
    (hash : ContentHash) (fresh : TrackedEntry) (tracked : Tracked)
    → Distinct bytes_discrete tracked
    → Distinct bytes_discrete (or_insert hash fresh tracked).0
unfolding or_insert
or_insert-Distinct hash fresh tracked d =
    ground (arith, insert-Distinct bytes_discrete hash fresh tracked d)

module _ (content : ContentIndex) (tracked : Tracked) (l : IsLinked content tracked) where
  pub mark_present-IsLinked : (hash : ContentHash) → IsLinked (mark_present hash content) tracked
  mark_present-IsLinked hash = record {
    valid = mark_present-IsValid hash content l.valid;
    distinct = l.distinct;
    linked = λ h. ground (arith, l.linked h, lookup_state-mark_present hash h content);
  }

  -- An arrival: the reference, the entry unless there is one, and the bytes if they are there.
  pub arrived-IsLinked :
      (ns : NamespaceId) (hash : ContentHash) (there : Bool) (fresh : TrackedEntry)
      → fresh.content_present ≡ there
      → IsLinked
          (if there then mark_present hash (want ns hash content) else want ns hash content)
          (or_insert hash fresh tracked).0
  arrived-IsLinked ns hash true fresh e = record {
    valid = mark_present-IsValid hash (want ns hash content) (want-IsValid ns hash content l.valid);
    distinct = or_insert-Distinct hash fresh tracked l.distinct;
    linked = λ h. ground (
      arith,
      l.linked h,
      lookup_state-want ns hash h content,
      lookup_state-want ns hash hash content,
      lookup_state-mark_present hash h (want ns hash content),
      get-or_insert hash h fresh tracked,
    );
  }
  arrived-IsLinked ns hash false fresh e = record {
    valid = want-IsValid ns hash content l.valid;
    distinct = or_insert-Distinct hash fresh tracked l.distinct;
    linked = λ h. ground (
      arith,
      l.linked h,
      lookup_state-want ns hash h content,
      get-or_insert hash h fresh tracked,
    );
  }

  -- A rewrite of a tracked entry that counts bytes as present only if they are marked.
  pub rewritten-IsLinked :
      (hash : ContentHash) (there : Bool) (live live' : TrackedEntry)
      → HashMap.get bytes_discrete hash tracked ≡ some live
      → live'.content_present ≡ (live.content_present || there)
      → IsLinked
          (if there then mark_present hash content else content)
          (HashMap.insert bytes_discrete hash live' tracked)
  rewritten-IsLinked hash true live live' e f = record {
    valid = mark_present-IsValid hash content l.valid;
    distinct = insert-Distinct bytes_discrete hash live' tracked l.distinct;
    linked = λ h. ground (
      arith,
      l.linked h,
      lookup_state-mark_present hash h content,
      get-insert bytes_discrete hash h live' tracked,
    );
  }
  rewritten-IsLinked hash false live live' e f = record {
    valid = l.valid;
    distinct = insert-Distinct bytes_discrete hash live' tracked l.distinct;
    linked = λ h. ground (arith, l.linked h, get-insert bytes_discrete hash h live' tracked);
  }

  pub forgotten-IsLinked :
      (ns : NamespaceId) (hash : ContentHash)
      → IsLinked (forget ns hash content).0 (
          if (forget ns hash content).1
          then HashMap.remove bytes_discrete hash tracked
          else tracked)
  forgotten-IsLinked ns hash = record {
    valid = forget-IsValid ns hash content l.valid;
    distinct = ground (arith, remove-Distinct bytes_discrete hash tracked l.distinct);
    linked = λ h. ground (
      arith,
      l.linked h,
      get_state-forget ns hash content h,
      get-remove bytes_discrete hash h tracked,
    );
  }

abbrev pub IsValid : (w : Iroh) → StashNode w → Type 0
IsValid w node = IsLinked node.content node.tracked

module _ (w : Iroh) where
  pub receive-IsValid :
      (ns : NamespaceId) (entry : DocEntry) (from : EndpointId) (now : ℕ) (node : StashNode w)
      → IsValid w node
      → IsValid w (receive w ns entry from now node).0
  unfolding receive new_entry
  receive-IsValid ns entry from now node v =
      let there = has_blob w node entry.content_hash in
      arrived-IsLinked node.content node.tracked v ns entry.content_hash there
        (new_entry w ns entry from now there) refl

  pub settle_live-IsValid :
      (now : ℕ) (hash : ContentHash) (entry : TrackedEntry) (there : Bool) (node : StashNode w)
      → IsValid w node
      → IsValid w (settle_live w now hash entry there node).0
  unfolding settle_live
  settle_live-IsValid now hash entry there node v =
      elim (Option-cases (HashMap.get bytes_discrete hash node.tracked)) [
        | inl e ↦ rw (e, settle_live) v
        | inr (live, e) ↦
            rw (e, settle_live)
              (rewritten-IsLinked node.content node.tracked v hash there live
                (released now there entry live) e (released_lem now there entry live).1)
      ]

  pub forget_one-IsValid :
      (ns : NamespaceId) (hash : ContentHash) (node : StashNode w)
      → IsValid w node
      → IsValid w (forget_one w ns hash node).0
  unfolding forget_one
  forget_one-IsValid ns hash node v =
      let l = forgotten-IsLinked node.content node.tracked v ns hash in
      elim (Bool-cases (forget ns hash node.content).1) [
        | inl e ↦ rw (e, forget_one) (rw e at l)
        | inr e ↦ rw (e, forget_one) (rw e at l)
      ]

  pub forget_all-IsValid :
      (ns : NamespaceId) (hashes : List ContentHash) (node : StashNode w)
      → IsValid w node
      → IsValid w (forget_all w ns hashes node).0
  unfolding forget_all
  forget_all-IsValid ns [] node v = v
  forget_all-IsValid ns (hash ∷ hashes) node v =
      forget_all-IsValid ns hashes (forget_one w ns hash node).0 (forget_one-IsValid ns hash node v)
