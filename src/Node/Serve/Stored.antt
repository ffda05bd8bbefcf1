-- ===== src/Node/Serve/Stored.antt =====
-- An upload of `rust/src/node.rs` that is answered as stored: what it did, and that its bytes can be read.
use trail_stash.Base.{
  ◌≡◌, refl, ap, ◌∙◌, true, ◌&&◌, some, arith, Bytes, bytes_discrete, Bool-cases, inl, inr,
}
use trail_stash.Content.{
  ContentHash, NamespaceId, is_tracked_for, is_present, is_present_for, mark_present,
}
use trail_stash.Content.Laws.{mark_present_effect, is_tracked_iff}
use trail_stash.Iroh.{Iroh, IsBlobStore}
use trail_stash.Node.{StashNode}
use trail_stash.Node.Linked.{IsValid}
use trail_stash.Node.Serve.{stored, content_bytes, store_bytes, put_content}
use trail_stash.Subscriptions.{is_known}
use trail_stash.Result.{Result-cases, ok}

pub is_present_for-split :
    (ns : NamespaceId) (h : ContentHash) (index : _)
    → is_present_for ns h index ≡ (is_tracked_for ns h index && is_present h index)
unfolding is_present_for is_tracked_for
is_present_for-split ns h index = refl

module _ (w : Iroh) where
  -- What a successful upload did.
  pub put_content_stored :
      (ns : NamespaceId) (h : ContentHash) (bytes : Bytes) (node : StashNode w)
      → (put_content w ns h bytes node).1 ≡ ok stored
      → (b' : w.Blobs) × (w.add_bytes node.blobs bytes ≡ ok (b', h))
        × (is_tracked_for ns h node.content ≡ true)
        × (w.hash_of bytes ≡ h)
        × ((put_content w ns h bytes node).0
            ≡ record node { blobs = b'; content = mark_present h node.content })
  unfolding put_content store_bytes
  put_content_stored ns h bytes node e = elim (Bool-cases (is_known ns node.registry)) [
    | inr p ↦ absurd (ground arith)
    | inl p ↦ elim (Bool-cases (is_tracked_for ns h node.content)) [
      | inr q ↦ absurd (ground arith)
      | inl q ↦ elim (bytes_discrete (w.hash_of bytes) h) [
        | no r ↦ absurd (ground arith)
        | yes r ↦ elim (Result-cases (w.add_bytes node.blobs bytes)) [
          | inr (_, f) ↦ absurd (ground arith)
          | inl ((b', h'), f) ↦ elim (bytes_discrete h' h) [
            | no g ↦ absurd (ground arith)
            | yes g ↦ (b', f ∙ ap (λ x. ok (b', x)) g, q, r, ground arith)
          ]
        ]
      ]
    ]
  ]

  module _ (blobs : IsBlobStore w) where
    pub stored_content_bytes :
        (ns : NamespaceId) (h : ContentHash) (bytes : Bytes) (node : StashNode w)
        → IsValid w node
        → (put_content w ns h bytes node).1 ≡ ok stored
        → content_bytes w ns h (put_content w ns h bytes node).0 ≡ some bytes
    unfolding content_bytes
    stored_content_bytes ns h bytes node v e =
        let (b', added, named, hashed, after) = put_content_stored ns h bytes node e in
        let tracked = (is_tracked_iff h node.content v.valid).1 (ns, named) in
        let effect = mark_present_effect h node.content ns h in
        rw after (
          ground (
            arith,
            is_present_for-split ns h (mark_present h node.content),
            effect.0,
            effect.1,
            (blobs.added node.blobs bytes b' h added).1,
          ))
