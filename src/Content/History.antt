-- ===== src/Content/History.antt =====
-- Any sequence of calls on a `ContentIndex` (`rust/src/content.rs`), against the references that
-- the calls themselves spell out.
use trail_stash.Base.{fun_ext, ◌≡◌, refl, Bool, true, false, List, [], ◌∷◌, bytes_discrete, ite}
use trail_stash.Content
use trail_stash.Content.{
  ContentIndex, ContentHash, NamespaceId, is_tracked_for, is_tracked, is_present,
}
use trail_stash.Content.Invariant.{IsValid, want-IsValid, mark_present-IsValid}
use trail_stash.Content.Forget.{forget-IsValid}
use trail_stash.Content.Laws.{want_effect, mark_present_effect, forget_effect}

pub data Op : Type 0 where
  want : NamespaceId → ContentHash → Op
  mark_present : ContentHash → Op
  forget : NamespaceId → ContentHash → Op

unfoldable pub apply : Op → ContentIndex → ContentIndex
apply (want ns h) index = Content.want ns h index
apply (mark_present h) index = Content.mark_present h index
apply (forget ns h) index = (Content.forget ns h index).0

unfoldable pub run : List Op → ContentIndex → ContentIndex
run [] index = index
run (op ∷ ops) index = run ops (apply op index)

-- References as a function, with no map and no count.
abbrev pub Refs : Type 0
Refs = NamespaceId → ContentHash → Bool

abbrev pub replay_one : Op → Refs → Refs
replay_one (want ns h) refs ns' h' =
    ite (bytes_discrete ns' ns) (ite (bytes_discrete h' h) true (refs ns' h')) (refs ns' h')
replay_one (mark_present h) refs ns' h' = refs ns' h'
replay_one (forget ns h) refs ns' h' =
    ite (bytes_discrete ns' ns) (ite (bytes_discrete h' h) false (refs ns' h')) (refs ns' h')

unfoldable pub replay : List Op → Refs → Refs
replay [] refs = refs
replay (op ∷ ops) refs = replay ops (replay_one op refs)

abbrev pub refs_of : ContentIndex → Refs
refs_of index ns h = is_tracked_for ns h index

apply-IsValid : (op : Op) (index : ContentIndex) → IsValid index → IsValid (apply op index)
unfolding apply
apply-IsValid (want ns h) index v = want-IsValid ns h index v
apply-IsValid (mark_present h) index v = mark_present-IsValid h index v
apply-IsValid (forget ns h) index v = forget-IsValid ns h index v

refs_of-apply :
    (op : Op) (index : ContentIndex)
    → IsValid index
    → refs_of (apply op index) ≡ replay_one op (refs_of index)
unfolding apply
refs_of-apply (want ns h) index v = fun_ext λ ns'. fun_ext λ h'. (want_effect ns h index ns' h').0
refs_of-apply (mark_present h) index v =
    fun_ext λ ns'. fun_ext λ h'. (mark_present_effect h index ns' h').0
refs_of-apply (forget ns h) index v =
    fun_ext λ ns'. fun_ext λ h'. (forget_effect ns h index ns' h' v).0

-- From any valid index every sequence of calls ends in a valid index, whose references are those
-- that the calls put in and took out.
pub run_refines :
    (ops : List Op) (index : ContentIndex)
    → IsValid index
    → IsValid (run ops index) × (refs_of (run ops index) ≡ replay ops (refs_of index))
unfolding run replay
run_refines [] index v = (v, refl)
run_refines (op ∷ ops) index v =
    rw (← refs_of-apply op index v) (run_refines ops (apply op index) (apply-IsValid op index v))
