-- ===== src/Node/Abstract/Index.antt =====
-- The operations of the content index (`rust/src/content.rs`) and of the registry (`rust/src/subscriptions.rs`)
-- on the abstract node.
use trail_stash.Base.{◌≡◌, refl, ap, fun_ext, true, Option, bytes_discrete, arith, []}
use trail_stash.Content.{
  ContentIndex, ContentHash, NamespaceId, is_tracked, is_present, want, mark_present,
}
use trail_stash.Content.Laws.{want_effect, mark_present_effect}
use trail_stash.HashSet
use trail_stash.Node.Abstract.{
  View, view_of, registered_view, unsubscribed_view, wanted_view, landed_view,
}
use trail_stash.Subscriptions
use trail_stash.Subscriptions.{NamespaceRegistry, PushSubscription, is_known}
use trail_stash.Subscriptions.History.{any_target}
use trail_stash.Subscriptions.Laws.{register_effect, unsubscribe_effect}

pub View-ext :
    (u v : View)
    → u.known ≡ v.known
    → u.woken ≡ v.woken
    → u.refers ≡ v.refers
    → u.holds ≡ v.holds
    → u ≡ v
View-ext u v p q r s = λ i. record { known = p i; woken = q i; refers = r i; holds = s i }

pub present_tracked :
    (h : ContentHash) (index : ContentIndex) → is_present h index ≡ true → is_tracked h index ≡ true
unfolding is_present is_tracked
present_tracked h index e = ground arith

module _ (registry : NamespaceRegistry) (index : ContentIndex) where
  pub view_of-want :
      (ns : NamespaceId) (h : ContentHash)
      → view_of registry (want ns h index) ≡ wanted_view ns h (view_of registry index)
  view_of-want ns h =
      View-ext _ _ refl refl (fun_ext λ ns'. fun_ext λ h'. (want_effect ns h index ns' h').0)
        (fun_ext λ h'. (want_effect ns h index ns h').1)

  pub view_of-mark_present :
      (h : ContentHash)
      → is_tracked h index ≡ true
      → view_of registry (mark_present h index) ≡ landed_view h (view_of registry index)
  view_of-mark_present h e =
      View-ext _ _ refl refl (fun_ext λ ns'. fun_ext λ h'. (mark_present_effect h index ns' h').0)
        (fun_ext λ h'. ground (arith, e, (mark_present_effect h index [] h').1))

  pub view_of-register :
      (ns : NamespaceId) (sub : Option PushSubscription)
      → view_of (Subscriptions.register ns sub registry).0 index
        ≡ registered_view ns sub (view_of registry index)
  view_of-register ns sub =
      View-ext _ _ (fun_ext λ ns'. (register_effect ns sub registry ns' any_target).1)
        (fun_ext λ ns'. fun_ext λ t. (register_effect ns sub registry ns' t).2) refl refl

  pub view_of-unsubscribe :
      (ns : NamespaceId) (sub : PushSubscription)
      → view_of (Subscriptions.unsubscribe ns sub registry).0 index
        ≡ unsubscribed_view ns sub (view_of registry index)
  unfolding is_known
  view_of-unsubscribe ns sub =
      View-ext _ _
        (fun_ext λ ns'.
          ap (HashSet.contains bytes_discrete ns') (unsubscribe_effect ns sub registry ns' sub).1)
        (fun_ext λ ns'. fun_ext λ t. (unsubscribe_effect ns sub registry ns' t).2) refl refl
