-- ===== src/Tests/Turns.antt =====
-- The orders in which the tasks of `rust/src/node.rs` take turns, at concrete inputs.
use trail_stash.Base.{
  is_some_and, ◌≡◌, refl, true, false, none, some, [], ◌∷◌, ◌++◌, ◌≤◌, bytes_discrete, ℕ_discrete,
}
use trail_stash.Content.{is_tracked, forget, lookup_state, wanted, drop_reference, want}
use trail_stash.HashMap
use trail_stash.HashSet
use trail_stash.Node.Receive.{receive}
use trail_stash.Node.Turns.{forgets, untracks, writes, wants, perform_all, receive_sections}
use trail_stash.Node.Turns.{tracks}
use trail_stash.Node.Turns.Chased.{chased_without_sweep}
use trail_stash.Node.Turns.Orders.{count_releases, orphaned_by_sweep, released_at_most_once}
use trail_stash.Tests.Node.{
  store, home, photo, peer, arriving, waiting, chased, chasing, fresh_node,
}

last_reference : (forget home photo waiting.content).1 ≡ true
unfolding forget drop_reference HashMap.get receive want HashMap.insert bytes_discrete ℕ_discrete
    HashSet.remove HashSet.erase HashSet.insert HashSet.contains HashMap.remove
last_reference = refl

orphaned_by_sweep_example :
    let after =
      (perform_all store
        (forgets home photo
          ∷ (receive_sections store home arriving peer 5000 false ++ untracks photo ∷ []))
        waiting).0 in
    (lookup_state photo after.content ≡ some wanted)
    × (HashMap.get bytes_discrete photo after.tracked ≡ none)
orphaned_by_sweep_example =
    orphaned_by_sweep store home home arriving peer 5000 waiting last_reference

released_at_most_once_example :
    count_releases photo
      (perform_all store
        (writes 40000 photo chased false ∷ wants home photo ∷ writes 50000 photo chased true ∷ [])
        chasing).1
    ≤ 1
released_at_most_once_example =
    released_at_most_once store photo
      (writes 40000 photo chased false ∷ wants home photo ∷ writes 50000 photo chased true ∷ [])
      chasing refl

chased_without_sweep_example :
    let after =
      (perform_all store
        (wants home photo ∷ writes 2000 photo chased false ∷ tracks photo chased ∷ [])
        fresh_node).0 in
    (is_tracked photo after.content ≡ true)
    × (is_some_and (λ _. true) (HashMap.get bytes_discrete photo after.tracked) ≡ true)
unfolding bytes_discrete ℕ_discrete
chased_without_sweep_example =
    chased_without_sweep store photo
      (wants home photo ∷ writes 2000 photo chased false ∷ tracks photo chased ∷ []) fresh_node refl
      refl refl
