-- ===== src/Content/Counts.antt =====
-- The counters and the liveness set of `ContentIndex` (`rust/src/content.rs`).
use trail_stash.Base.{◌≡◌, refl, ◌↔◌, true, [], ◌∷◌, arith, bytes_discrete, is_some_and}
use trail_stash.HashMap
use trail_stash.HashMap.{HashMap, values, keys}
use trail_stash.HashMap.Distinct.{Distinct}
use trail_stash.HashSet
use trail_stash.Content.{
  ContentIndex, State, is_present_state, ContentHash, count_wanted, missing_count, referenced,
  is_tracked, is_present,
}
use trail_stash.Content.Invariant.{IsValid}

abbrev IsComplete : HashMap ContentHash State → Type 0
IsComplete m =
    (h : ContentHash)
    → is_some_and (λ _. true) (HashMap.get bytes_discrete h m) ≡ true
    → is_some_and is_present_state (HashMap.get bytes_discrete h m) ≡ true

complete_of_none_wanted :
    (m : HashMap ContentHash State) (h : ContentHash)
    → count_wanted (values m) ≡ 0
    → is_some_and (λ _. true) (HashMap.get bytes_discrete h m) ≡ true
    → is_some_and is_present_state (HashMap.get bytes_discrete h m) ≡ true
unfolding count_wanted HashMap.get
complete_of_none_wanted [] h e t = t
complete_of_none_wanted ((k, s) ∷ m) h e t = ground (arith, complete_of_none_wanted m h)

none_wanted_of_complete :
    (m : HashMap ContentHash State)
    → Distinct bytes_discrete m
    → IsComplete m
    → count_wanted (values m) ≡ 0
unfolding count_wanted HashMap.get
none_wanted_of_complete [] d c = refl
none_wanted_of_complete ((k, s) ∷ m) d c =
    ground (arith, c k, none_wanted_of_complete m d.1 (λ h t. ground (arith, c h, d.0)))

-- In a valid index no content is missing exactly when every tracked hash is present.
pub missing_count-eq-zero_iff :
    (index : ContentIndex)
    → IsValid index
    → (missing_count index ≡ 0)
      ↔ ((h : ContentHash) → is_tracked h index ≡ true → is_present h index ≡ true)
unfolding missing_count is_tracked is_present
missing_count-eq-zero_iff index v = (
  λ e h t. complete_of_none_wanted index.state h e t,
  none_wanted_of_complete index.state v.distinct_state,
)

contains-keys :
    (h : ContentHash) (m : HashMap ContentHash State)
    → HashSet.contains bytes_discrete h (keys m)
      ≡ is_some_and (λ _. true) (HashMap.get bytes_discrete h m)
unfolding HashSet.contains HashMap.get
contains-keys h [] = refl
contains-keys h ((k, s) ∷ m) = ground (arith, contains-keys h m)

-- The set that protects blobs from collection holds exactly the hashes that are tracked, missing ones
-- included.
pub referenced_iff :
    (h : ContentHash) (index : ContentIndex)
    → HashSet.contains bytes_discrete h (referenced index) ≡ is_tracked h index
unfolding referenced is_tracked
referenced_iff h index = contains-keys h index.state
