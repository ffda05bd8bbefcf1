-- ===== src/Content/Forget.antt =====
-- `ContentIndex::forget` of `rust/src/content.rs`: the reference count.
use trail_stash.Base.{◌≡◌, ◌&&◌, not, none, arith, bytes_discrete, ite, if◌then◌else◌}
use trail_stash.HashMap.{get-remove}
use trail_stash.HashMap.Distinct.{Distinct, remove-Distinct, any-values}
use trail_stash.Content.{
  ContentIndex, ContentHash, NamespaceId, lookup_state, names, is_tracked, drop_reference,
  still_referenced, forget,
}
use trail_stash.Content.Invariant.{
  IsValid, names_in, drop_reference-removed, drop_reference-Distinct,
  still_referenced-drop_reference,
}

module _ (ns : NamespaceId) (hash : ContentHash) (index : ContentIndex) where
  pub forget-sets :
      (forget ns hash index).0.by_namespace ≡ (drop_reference ns hash index.by_namespace).0
  unfolding forget
  forget-sets = ground arith

  pub forget-result :
      (forget ns hash index).1
      ≡ names_in ns hash index.by_namespace
        && not (still_referenced hash (drop_reference ns hash index.by_namespace).0)
  unfolding forget
  forget-result = ground (arith, drop_reference-removed ns hash index.by_namespace)

  pub get_state-forget :
      (h : ContentHash)
      → lookup_state h (forget ns hash index).0
        ≡ ite
            (bytes_discrete h hash)
            (if (forget ns hash index).1 then none else lookup_state h index)
            (lookup_state h index)
  unfolding forget
  get_state-forget h = ground (arith, get-remove bytes_discrete hash h index.state)

  forget_state-Distinct :
      Distinct bytes_discrete index.state → Distinct bytes_discrete (forget ns hash index).0.state
  unfolding forget
  forget_state-Distinct d = ground (arith, remove-Distinct bytes_discrete hash index.state d)

  pub forget-IsValid : IsValid index → IsValid (forget ns hash index).0
  unfolding is_tracked
  forget-IsValid v = record {
    agree = λ h. ground (
      arith,
      v.agree h,
      forget-sets,
      forget-result,
      get_state-forget h,
      still_referenced-drop_reference ns hash index.by_namespace h v.distinct_sets,
      any-values bytes_discrete (names h) ns index.by_namespace v.distinct_sets,
    );
    distinct_state = forget_state-Distinct v.distinct_state;
    distinct_sets =
        rw forget-sets (drop_reference-Distinct ns hash index.by_namespace v.distinct_sets);
  }
