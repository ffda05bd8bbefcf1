-- ===== src/Tests/Content.antt =====
-- The theorems on `rust/src/content.rs` at concrete inputs.
use trail_stash.Base.{◌≡◌, [], ◌∷◌, List}
use trail_stash.Content.{new, NamespaceId, ContentHash}
use trail_stash.Content.History.{Op, run, refs_of, replay, run_refines}
use trail_stash.Content.Invariant.{IsValid, new-IsValid}

abbrev home : NamespaceId
home = 1 ∷ []

abbrev work : NamespaceId
work = 2 ∷ []

abbrev photo : ContentHash
photo = 9 ∷ []

abbrev calls : List Op
calls = Op.want home photo ∷ Op.mark_present photo ∷ Op.want work photo ∷ Op.forget home photo ∷ []

run_refines_example :
    IsValid (run calls new) × (refs_of (run calls new) ≡ replay calls (refs_of new))
run_refines_example = run_refines calls new new-IsValid
