-- ===== src/Http/Upload.antt =====
-- The explicit handoff of `rust/src/node.rs`: an upload that is acknowledged can be downloaded.
use trail_stash.Base.{
  sym, Option, ◌≡◌, refl, ap, ◌∙◌, true, some, arith, Bytes, Bool-cases, inl, inr,
}
use trail_stash.Content.{ContentHash, NamespaceId}
use trail_stash.Iroh.{Iroh, IsBlobStore}
use trail_stash.Node.{StashNode}
use trail_stash.Node.Linked.{IsValid}
use trail_stash.Node.Serve.Stored.{stored_content_bytes}
use trail_stash.Node.Serve.{stored, content_bytes, put_content}
use trail_stash.Result.{Result-cases, ok}
use trail_stash.Http.{
  err, PutOutcome, Result, serve, psk_guard, put_content_at, get_content, put_content_handler,
  content_handler, response, Reply, status_only, put_reply,
}
use trail_stash.Api.{parse_namespace_hex}
use trail_stash.Auth.{authorize, bearer_token, is_allowed}
use trail_stash.Text.{Text}
use trail_stash.Base.{Option-cases}

module _ (w : Iroh) (blobs : IsBlobStore w) where
  psk_guard_allowed :
      (psk header : Option Text) (next : StashNode w → StashNode w × Reply) (node : StashNode w)
      → is_allowed (authorize psk (bearer_token header)) ≡ true
      → psk_guard w psk header next node ≡ next node
  unfolding psk_guard
  psk_guard_allowed psk header next node e = rw e refl

  module _ (id hash : Text) (ns : NamespaceId) (h : ContentHash)
      (q : parse_namespace_hex id ≡ ok ns) (r : w.parse_hash hash ≡ some h) where
    put_content_handler_parsed :
        (bytes : Bytes) (node : StashNode w)
        → put_content_handler w id hash bytes node ≡ (
          (put_content w ns h bytes node).0,
          response (put_reply w (put_content w ns h bytes node).1),
        )
    unfolding put_content_handler
    put_content_handler_parsed bytes node = rw (put_content_handler, q, r) refl

    content_handler_found :
        (bytes : Bytes) (node : StashNode w)
        → content_bytes w ns h node ≡ some bytes
        → content_handler w id hash node ≡ (node, response (record { status = 200; body = bytes }))
    unfolding content_handler
    content_handler_found bytes node e = rw (content_handler, q, r, e) refl

  put_reply_stored :
      (result : Result Text PutOutcome)
      → response (put_reply w result) ≡ response (status_only 204)
      → result ≡ ok stored
  put_reply_stored (ok stored) e = refl
  put_reply_stored (ok PutOutcome.unknown_namespace) e = absurd (ground (arith, e))
  put_reply_stored (ok PutOutcome.untracked_hash) e = absurd (ground (arith, e))
  put_reply_stored (ok PutOutcome.hash_mismatch) e = absurd (ground (arith, e))
  put_reply_stored (err error) e = absurd (ground (arith, e))

  -- If the ledgers of the node agree and the store finds what it added, an upload that is answered by
  -- 204 can be downloaded at once: a request for the same content of the same namespace, under the same
  -- key and header, is answered by 200 and the very bytes of the upload.
  pub upload_download :
      (psk header : Option Text) (id hash : Text) (bytes : Bytes) (node : StashNode w)
      → IsValid w node
      → let (after, reply) = serve w psk header (put_content_at id hash bytes) node in
        reply ≡ response (status_only 204)
        → (serve w psk header (get_content id hash) after).1
          ≡ response (record { status = 200; body = bytes })
  unfolding serve psk_guard put_content_handler
  upload_download psk header id hash bytes node v e =
      elim (Bool-cases (is_allowed (authorize psk (bearer_token header)))) [
        | inr p ↦ absurd (ground arith)
        | inl p ↦ elim (Result-cases (parse_namespace_hex id)) [
          | inr (_, q) ↦ absurd (ground arith)
          | inl (ns, q) ↦ elim (Option-cases (w.parse_hash hash)) [
            | inl r ↦ absurd (ground arith)
            | inr (h, r) ↦
                let put =
                  psk_guard_allowed psk header (put_content_handler w id hash bytes) node p
                  ∙ put_content_handler_parsed id hash ns h q r bytes node in
                let done =
                  put_reply_stored (put_content w ns h bytes node).1
                    (sym (ap (λ x. x.1) put) ∙ e) in
                let after = (put_content w ns h bytes node).0 in
                ap (λ x. (psk_guard w psk header (content_handler w id hash) x.0).1) put
                ∙ ap (λ x. x.1) (psk_guard_allowed psk header (content_handler w id hash) after p)
                ∙ ap (λ x. x.1)
                    (content_handler_found id hash ns h q r bytes after
                      (stored_content_bytes w blobs ns h bytes node v done))
          ]
        ]
      ]
