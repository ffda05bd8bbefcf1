-- ===== src/Node/Settle/Once.antt =====
-- The settle loop of `rust/src/node.rs` never releases again what counts as woken.
use trail_stash.Base.{
  none, ℕ, Bool, true, false, ◌||◌, ◌≡◌, refl, ap, ◌∙◌, List, [], ◌∷◌, ◌++◌, bytes_discrete, arith,
  any, ite, is_some_and, Option-cases, inl, inr,
}
use trail_stash.Content.{ContentHash, NamespaceId}
use trail_stash.HashMap
use trail_stash.HashMap.{HashMap, get-insert}
use trail_stash.Iroh.{Iroh, DocEntry, EndpointId}
use trail_stash.Node.{TrackedEntry, StashNode, has_blob, fetch_content}
use trail_stash.Node.Receive.{receive, new_entry}
use trail_stash.Node.Receive.Wakes.{receive_present}
use trail_stash.Node.Settle.{
  Settled, obtain, released, is_due, settle_live, settle_entry, settle_all, settle_once,
  outstanding,
}
use trail_stash.Node.Settle.Wakes.{released_lem, is_due-attempted}

abbrev same : ContentHash → ContentHash → Bool
same h k = ite (bytes_discrete h k) true false

-- Whether some release of the list is of the hash.
abbrev pub releases : ContentHash → List Settled → Bool
releases h = any (λ s. same h s.hash)

any-append {ℓ} :
    {A : Type ℓ} (p : A → Bool) (xs ys : List A) → any p (xs ++ ys) ≡ (any p xs || any p ys)
any-append p [] ys = refl
any-append p (x ∷ xs) ys = ground (arith, any-append p xs ys)

module _ (w : Iroh) where
  -- Whether the hash is tracked by an entry that counts as woken.
  abbrev pub is_woken : ContentHash → StashNode w → Bool
  is_woken h node = is_some_and (λ e. e.woken) (HashMap.get bytes_discrete h node.tracked)

  pub obtain-tracked :
      (now : ℕ) (hash : ContentHash) (entry : TrackedEntry) (node : StashNode w)
      → (obtain w now hash entry node).0.tracked ≡ node.tracked
  unfolding obtain fetch_content
  obtain-tracked now hash entry node = ground arith

  pub settle_live-woken :
      (now : ℕ) (h hash : ContentHash) (entry : TrackedEntry) (present : Bool) (node : StashNode w)
      → is_woken h node ≡ true
      → (releases h (settle_live w now hash entry present node).1 ≡ false)
        × (is_woken h (settle_live w now hash entry present node).0 ≡ true)
  unfolding settle_live is_due
  settle_live-woken now h hash entry present node e =
      elim (Option-cases (HashMap.get bytes_discrete hash node.tracked)) [
        | inl f ↦ rw (f, settle_live) (refl, e)
        | inr (live, f) ↦
            rw (f, settle_live)
              (
                ground (arith, e, f, is_due-attempted now present entry live),
                ground (
                  arith,
                  e,
                  f,
                  get-insert bytes_discrete hash h (released now present entry live) node.tracked,
                  (released_lem now present entry live).0,
                ),
              )
      ]

  settle_all-woken :
      (now : ℕ) (h : ContentHash) (list : List (ContentHash × TrackedEntry)) (node : StashNode w)
      → is_woken h node ≡ true
      → (releases h (settle_all w now list node).1 ≡ false)
        × (is_woken h (settle_all w now list node).0 ≡ true)
  unfolding settle_all settle_entry
  settle_all-woken now h [] node e = (refl, e)
  settle_all-woken now h ((hash, entry) ∷ rest) node e =
      let (node', present) = obtain w now hash entry node in
      let still : is_woken h node' ≡ true =
        ap (λ t. is_some_and (λ x. x.woken) (HashMap.get bytes_discrete h t))
          (obtain-tracked now hash entry node)
        ∙ e in
      let one = settle_live-woken now h hash entry present node' still in
      let (node'', wake) = settle_live w now hash entry present node' in
      let more = settle_all-woken now h rest node'' one.1 in
      (
        any-append (λ s. same h s.hash) wake (settle_all w now rest node'').1
            ∙ ground (arith, one.0, more.0),
        more.1,
      )

  -- A pass of the settle loop does not release a hash whose entry counts as woken, and the entry counts as
  -- woken after the pass.
  pub settle_once_woken :
      (now : ℕ) (h : ContentHash) (node : StashNode w)
      → is_woken h node ≡ true
      → (releases h (settle_once w now node).1 ≡ false)
        × (is_woken h (settle_once w now node).0 ≡ true)
  unfolding settle_once
  settle_once_woken now h node e = settle_all-woken now h (outstanding node.tracked) node e

  -- What several passes release, with nothing else between them.
  abbrev pub settle_passes : List ℕ → StashNode w → List Settled
  settle_passes [] node = []
  settle_passes (now ∷ nows) node =
      (settle_once w now node).1 ++ settle_passes nows (settle_once w now node).0

  settle_passes-woken :
      (nows : List ℕ) (h : ContentHash) (node : StashNode w)
      → is_woken h node ≡ true
      → releases h (settle_passes nows node) ≡ false
  settle_passes-woken [] h node e = refl
  settle_passes-woken (now ∷ nows) h node e =
      let once = settle_once_woken now h node e in
      any-append (λ s. same h s.hash) (settle_once w now node).1
        (settle_passes nows (settle_once w now node).0)
      ∙ ground (arith, once.0, settle_passes-woken nows h (settle_once w now node).0 once.1)

  -- A hash that is not tracked and whose bytes are in the store when its record arrives is never
  -- released to be woken: neither on its arrival nor by any number of passes of the settle loop after it.
  pub arrived_present_unwoken :
      (ns : NamespaceId) (entry : DocEntry) (from : EndpointId) (now : ℕ) (node : StashNode w)
      (nows : List ℕ)
      → has_blob w node entry.content_hash ≡ true
      → HashMap.get bytes_discrete entry.content_hash node.tracked ≡ none
      → ((receive w ns entry from now node).1 ≡ none)
        × (releases entry.content_hash (settle_passes nows (receive w ns entry from now node).0)
            ≡ false)
  unfolding new_entry
  arrived_present_unwoken ns entry from now node nows p q =
      let arrived = receive_present w ns entry from now node p q in
      (
        arrived.0,
        settle_passes-woken nows entry.content_hash (receive w ns entry from now node).0
            (ap (is_some_and (λ e. e.woken)) arrived.1),
      )
