-- ===== src/Node/Turns/Uploaded.antt =====
-- An upload of `rust/src/node.rs` with other tasks between its awaits.
use trail_stash.Base.{
  sym, subst, refl, ◌∙◌, ap, ◌++◌, some, all, Bool, true, ◌≡◌, List, [], ◌∷◌, Bytes, arith, inl,
  inr,
}
use trail_stash.Content.{ContentHash, NamespaceId, is_tracked_for, is_present}
use trail_stash.Content.Invariant.{IsValid}
use trail_stash.Content.Laws.{mark_present_effect}
use trail_stash.Iroh.{IsDurable, IsCollector, IsBlobStore, Iroh}
use trail_stash.Node.{StashNode, fetch_content, sources}
use trail_stash.Node.Turns.Orders.{perform-IsValid}
use trail_stash.Node.Serve.Stored.{put_content_stored, is_present_for-split}
use trail_stash.Node.Serve.{content_bytes, put_content, stored}
use trail_stash.Node.Collect.{contains-add_protected, add_protected, collect}
use trail_stash.Node.Settle.{settle_live}
use trail_stash.Node.Turns.{
  Section, wants, tracks, marks, fetches, writes, forgets, untracks, elsewhere, perform,
}
use trail_stash.Result.{Result-cases, ok}
use trail_stash.Node.Turns.Upload.{
  Turn, adds, collects, enrolls, takes, take_turn, take_turns, spares_section, spares, tracked_by,
  perform-Keeps,
}

module _ (w : Iroh) where
  module _ (blobs : IsBlobStore w) (collector : IsCollector w) (durable : IsDurable w)
      (ns : NamespaceId) (h : ContentHash) (bytes : Bytes) (hashed : w.hash_of bytes ≡ h) where
    -- The bytes are in the store, and the namespace references them.
    pub record IsHeld (node : StashNode w) : Type 0 where
      pub valid : IsValid node.content
      pub referenced : is_tracked_for ns h node.content ≡ true
      pub there : w.get_bytes node.blobs h ≡ some bytes

    perform-there :
        (s : Section w) (node : StashNode w)
        → spares_section w ns h s ≡ true
        → w.get_bytes node.blobs h ≡ some bytes
        → w.get_bytes (perform w s node).0.blobs h ≡ some bytes
    unfolding perform fetch_content settle_live
    perform-there (wants ns' hash) node r e = e
    perform-there (tracks hash entry) node r e = e
    perform-there (marks hash) node r e = e
    perform-there (fetches hash entry) node r e =
        durable.downloads node.blobs hash h (sources w entry) bytes hashed e
    perform-there (writes now hash entry present) node r e = ground (arith, e)
    perform-there (forgets ns' hash) node r e = e
    perform-there (untracks hash) node r e = e
    perform-there (elsewhere docs blobs registry handles watched) node r e =
        absurd (ground (arith, r))

    -- Every turn that spares the reference keeps what is held, and its mark.
    take_turn-IsHeld :
        (t : Turn w) (node : StashNode w)
        → spares w ns h t ≡ true
        → IsHeld node
        → IsHeld (take_turn w t node)
          × (is_present h node.content ≡ true → is_present h (take_turn w t node).content ≡ true)
    unfolding take_turn collect
    take_turn-IsHeld (takes s) node r k =
        let (referenced, mark) = perform-Keeps w ns h s node k.valid r k.referenced in
        (
          record {
            valid = perform-IsValid w s node k.valid;
            referenced = referenced;
            there = perform-there s node r k.there;
          },
          mark,
        )
    take_turn-IsHeld (enrolls docs registry handles watched) node r k =
        (record { valid = k.valid; referenced = k.referenced; there = k.there }, λ p. p)
    take_turn-IsHeld (collects tagged) node r k = (
      record {
        valid = k.valid;
        referenced = k.referenced;
        there =
            collector.kept (add_protected node.content tagged) node.blobs h (
              ground (
                arith,
                contains-add_protected h node.content tagged,
                tracked_by w ns h node.content k.valid k.referenced,
              ))
            ∙ k.there;
      },
      λ p. p,
    )
    take_turn-IsHeld (adds more) node r k = elim (Result-cases (w.add_bytes node.blobs more)) [
      | inr (msg, e) ↦ rw (take_turn, e) (k, λ p. p)
      | inl ((b, hash), e) ↦
          rw (take_turn, e)
            (
              record {
                valid = k.valid;
                referenced = k.referenced;
                there = durable.adds node.blobs more b hash h bytes e hashed k.there;
              },
              λ p. p,
            )
    ]

    take_turns-IsHeld :
        (turns : List (Turn w)) (node : StashNode w)
        → all (spares w ns h) turns ≡ true
        → IsHeld node
        → IsHeld (take_turns w turns node)
          × (is_present h node.content ≡ true
              → is_present h (take_turns w turns node).content ≡ true)
    unfolding take_turns
    take_turns-IsHeld [] node r k = (k, λ p. p)
    take_turns-IsHeld (t ∷ turns) node r k =
        let (k', mark) = take_turn-IsHeld t node (ground (arith, r)) k in
        let (k'', later) = take_turns-IsHeld turns (take_turn w t node) (ground (arith, r)) k' in
        (k'', λ p. later (mark p))

  take_turns-append :
      (xs ys : List (Turn w)) (node : StashNode w)
      → take_turns w (xs ++ ys) node ≡ take_turns w ys (take_turns w xs node)
  unfolding take_turns
  take_turns-append [] ys node = refl
  take_turns-append (t ∷ xs) ys node = take_turns-append xs ys (take_turn w t node)

  all-append :
      (p : Turn w → Bool) (xs ys : List (Turn w))
      → all p (xs ++ ys) ≡ true
      → (all p xs ≡ true) × (all p ys ≡ true)
  all-append p [] ys e = (refl, e)
  all-append p (t ∷ xs) ys e = ground (arith, all-append p xs ys)

  -- The turns of an upload that passes its checks, with those of other tasks between its two and after them.
  abbrev pub upload_turns : ContentHash → Bytes → List (Turn w) → List (Turn w) → List (Turn w)
  upload_turns h bytes between after = adds bytes ∷ between ++ takes (marks h) ∷ after

  adds-added :
      (bytes : Bytes) (b' : w.Blobs) (hash : ContentHash) (node : StashNode w)
      → w.add_bytes node.blobs bytes ≡ ok (b', hash)
      → take_turn w (adds bytes) node ≡ record node { blobs = b' }
  unfolding take_turn
  adds-added bytes b' hash node e = rw (take_turn, e) refl

  -- Where no other task comes between, these turns do what the upload does as one step.
  upload_alone :
      (ns : NamespaceId) (h : ContentHash) (bytes : Bytes) (node : StashNode w)
      → (put_content w ns h bytes node).1 ≡ ok stored
      → take_turns w (upload_turns h bytes [] []) node ≡ (put_content w ns h bytes node).0
  unfolding take_turns take_turn perform
  upload_alone ns h bytes node e =
      let (b', added, _, _, after) = put_content_stored w ns h bytes node e in
      ap (λ n. take_turn w (takes (marks h)) n) (adds-added bytes b' h node added) ∙ sym after

  held_served :
      (ns : NamespaceId) (h : ContentHash) (bytes : Bytes) (node : StashNode w)
      → is_tracked_for ns h node.content ≡ true
      → is_present h node.content ≡ true
      → w.get_bytes node.blobs h ≡ some bytes
      → content_bytes w ns h node ≡ some bytes
  unfolding content_bytes
  held_served ns h bytes node e p there =
      ground (arith, e, p, there, is_present_for-split ns h node.content)

  marks-present :
      (ns : NamespaceId) (h : ContentHash) (node : StashNode w)
      → IsValid node.content
      → is_tracked_for ns h node.content ≡ true
      → is_present h (take_turn w (takes (marks h)) node).content ≡ true
  unfolding take_turn perform
  marks-present ns h node v e =
      ground
        (arith, (mark_present_effect h node.content ns h).1, tracked_by w ns h node.content v e)

  -- An upload that would be stored if it were alone can be downloaded, with its very bytes, whatever other tasks do
  -- between its adding of the bytes and its mark and after it, collections of the store included, as long as no
  -- sweep takes the namespace's reference: on a valid index, over a store that finds what it added, that only a
  -- collection empties, and that keeps what is live through a collection. Alone, the two turns are the upload.
  pub uploaded_stays :
      (blobs : IsBlobStore w) (collector : IsCollector w) (durable : IsDurable w) (ns : NamespaceId)
      (h : ContentHash) (bytes : Bytes) (between after : List (Turn w)) (node : StashNode w)
      → IsValid node.content
      → (put_content w ns h bytes node).1 ≡ ok stored
      → all (spares w ns h) (between ++ after) ≡ true
      → (content_bytes w ns h (take_turns w (upload_turns h bytes between after) node) ≡ some bytes)
        × (take_turns w (upload_turns h bytes [] []) node ≡ (put_content w ns h bytes node).0)
  unfolding take_turns take_turn
  uploaded_stays blobs collector durable ns h bytes between after node v e r =
      let (b', added, named, hashed, _) = put_content_stored w ns h bytes node e in
      let (spared, spared') = all-append (spares w ns h) between after r in
      let Held : StashNode w → Type 0 = IsHeld blobs collector durable ns h bytes hashed in
      let start = take_turn w (adds bytes) node in
      let add = adds-added bytes b' h node added in
      let held : Held start = subst Held (sym add) (record {
        valid = v;
        referenced = named;
        there = (blobs.added node.blobs bytes b' h added).1;
      }) in
      let (held', _) =
        take_turns-IsHeld blobs collector durable ns h bytes hashed between start spared held in
      let middle = take_turns w between start in
      let (held'', _) =
        take_turn-IsHeld blobs collector durable ns h bytes hashed (takes (marks h)) middle refl
          held' in
      let marked = take_turn w (takes (marks h)) middle in
      let (last, kept) =
        take_turns-IsHeld blobs collector durable ns h bytes hashed after marked spared' held'' in
      (
        ap (content_bytes w ns h) (take_turns-append between (takes (marks h) ∷ after) start)
            ∙ held_served ns h bytes (take_turns w after marked) last.referenced
                (kept (marks-present ns h middle held'.valid held'.referenced)) last.there,
        upload_alone ns h bytes node e,
      )
