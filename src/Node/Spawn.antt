-- ===== src/Node/Spawn.antt =====
-- `StashNode::spawn` of `rust/src/node.rs`: what it takes from its arguments, and where it fails. Binding an
-- endpoint, the stores and the gossip engine are the iroh crates'.
use trail_stash.Base.{
  [], ◌∷◌, ◌≡◌, sym, ap, ◌∙◌, is_none, Option, none, some, List, Bytes, ◌++◌, is_empty,
  if◌then◌else◌,
}
use trail_stash.Iroh.{Iroh}
use trail_stash.Mls.{DeliveryService}
use trail_stash.Node.{StashNode}
use trail_stash.Node.Run.{spawned}
use trail_stash.Result.{Result, ok, map_err, ◌>>=◌, bound_ok, map_err-ok, ok-inj}
use trail_stash.Retention.{RetentionPolicy}
use trail_stash.Text.{Text, text}

-- What `spawn` calls of the crates; each error is its text.
pub record Network (w : Iroh) : Type 1 where
  pub Endpoint : Type 0
  pub RelayMap : Type 0
  -- `RelayMap::try_from_iter`
  pub relay_map : List Text → Result Text RelayMap
  pub with_auth_token : Text → RelayMap → RelayMap
  -- `bind` under a secret key, with custom relays or the preset's
  pub bind : Bytes → Option RelayMap → Result Text Endpoint
  pub mem_store : w.Blobs
  pub spawn_docs : Endpoint → w.Blobs → Result Text w.Docs

module _ (w : Iroh) (net : Network w) where
  unfoldable pub relay_map_of : List Text → Option Text → Result Text (Option net.RelayMap)
  relay_map_of relay_urls relay_token = if is_empty relay_urls then ok none else do
    relay_map ← map_err (λ e. text "invalid custom relay URL: " ++ e) (net.relay_map relay_urls)
    ok (
        some (elim relay_token [
          | none ↦ relay_map
          | some token ↦ net.with_auth_token token relay_map
        ]))

  unfoldable pub spawn :
      Bytes
      → RetentionPolicy
      → List Text
      → Option Text
      → DeliveryService
      → Result Text (net.Endpoint × StashNode w)
  spawn secret retention relay_urls relay_token delivery = do
    relays ← relay_map_of relay_urls relay_token
    endpoint ← map_err (λ e. text "bind endpoint: " ++ e) (net.bind secret relays)
    docs ← map_err (λ e. text "spawn docs: " ++ e) (net.spawn_docs endpoint net.mem_store)
    ok (endpoint, spawned w docs net.mem_store delivery retention)

  relay_map_of-none :
      (relay_urls : List Text) (relay_token : Option Text) (relays : Option net.RelayMap)
      → relay_map_of relay_urls relay_token ≡ ok relays
      → is_none relays ≡ is_empty relay_urls
  unfolding relay_map_of
  relay_map_of-none [] relay_token relays e = ap is_none (sym (ok-inj _ relays e))
  relay_map_of-none (url ∷ urls) relay_token relays e =
      let (relay_map, _, last) =
        bound_ok
          (map_err (λ e. text "invalid custom relay URL: " ++ e) (net.relay_map (url ∷ urls))) _
          relays e in
      ap is_none (sym (ok-inj _ relays last))

  -- What `spawn` went through.
  pub spawn_lem :
      (secret : Bytes) (retention : RetentionPolicy) (relay_urls : List Text)
      (relay_token : Option Text) (delivery : DeliveryService) (endpoint : net.Endpoint)
      (node : StashNode w)
      → spawn secret retention relay_urls relay_token delivery ≡ ok (endpoint, node)
      → (relays : Option net.RelayMap) × (docs : w.Docs) × (is_none relays ≡ is_empty relay_urls)
        × (net.bind secret relays ≡ ok endpoint)
        × (net.spawn_docs endpoint net.mem_store ≡ ok docs)
        × (node ≡ spawned w docs net.mem_store delivery retention)
  unfolding spawn
  spawn_lem secret retention relay_urls relay_token delivery endpoint node e =
      let (relays, e1, rest) =
        bound_ok (relay_map_of relay_urls relay_token) _ (endpoint, node) e in
      let (bound, e2, rest') =
        bound_ok (map_err (λ e. text "bind endpoint: " ++ e) (net.bind secret relays)) _
          (endpoint, node) rest in
      let (docs, e3, last) =
        bound_ok (map_err (λ e. text "spawn docs: " ++ e) (net.spawn_docs bound net.mem_store)) _
          (endpoint, node) rest' in
      let same = ok-inj _ (endpoint, node) last in
      (
        relays,
        docs,
        relay_map_of-none relay_urls relay_token relays e1,
        map_err-ok _ _ bound e2 ∙ ap (λ p. ok p.0) same,
        ap (λ b. net.spawn_docs b net.mem_store) (sym (ap (λ p. p.0) same))
            ∙ map_err-ok _ _ docs e3,
        sym (ap (λ p. p.1) same),
      )
