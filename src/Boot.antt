-- ===== src/Boot.antt =====
-- `main` of `rust/src/bin/trail-stash.rs`, what runs under which environment, and how it ends.
pub mod Ends
use trail_stash.Base.{
  refl, if◌then◌else◌, false, ◌≡◌, ◌≢◌, ap, sym, ◌∙◌, Option, some, List, [], ◌∷◌, ℕ, is_empty,
  is_none, arith, Bytes,
}
use trail_stash.Auth.{bearer_token}
use trail_stash.Auth.Compare.{IsOptionText}
use trail_stash.Config.{from_env, setting}
use trail_stash.Http.{Request, healthz, response, with_message, serve}
use trail_stash.Http.Guard.{serve_denied}
use trail_stash.Iroh.{Iroh}
use trail_stash.Main.{load_secret_key}
use trail_stash.Mls.{passthrough}
use trail_stash.Node.{StashNode}
use trail_stash.Node.Spawn.{Network, spawn, spawn_lem}
use trail_stash.Node.Run.{spawned}
use trail_stash.Result.{Result, ok, err, is_ok, map_err, bound_ok, map_err-ok, ok-inj, ◌>>=◌}
use trail_stash.Telemetry.{OtelSettings, Providers, Pipeline, traces, logs, shutdown}
use trail_stash.Text.{Text, text, trim, IsText}
use trail_stash.Waker.{PushConfig, build_waker}

-- What is running once `main` waits: the node with its waker, and the parameters of the prune loop and of the
-- control API.
pub record Running (w : Iroh) (net : Network w) : Type 0 where
  pub endpoint : net.Endpoint
  pub node : StashNode w
  pub waker : Option PushConfig
  pub prune_interval_min : ℕ
  pub port : ℕ
  pub psk : Option Text

-- What the task of the control API ends with: it may have panicked, and it may return an error.
abbrev pub ApiTask : Type 0
ApiTask = Result Text (Result Text (Unit {0}))

-- How `main` stops waiting: by a signal, or by the end of the task of the control API.
pub data Ending : Type 0 where
  signalled : Ending
  served : ApiTask → Ending

-- The end of `main`: the exporters that still run, those that were shut down, and what `main` returns.
unfoldable pub finish :
    Ending → Providers → Providers × List Pipeline × Result (List Text) (Unit {0})
finish signalled providers = let (left, flushed) = shutdown providers in (left, flushed, ok tt)
finish (served (err e)) providers = (providers, [], err (text "control api task" ∷ e ∷ []))
finish (served (ok (err e))) providers = (providers, [], err (text "control api" ∷ e ∷ []))
finish (served (ok (ok _))) providers =
    let (left, flushed) = shutdown providers in (left, flushed, ok tt)

module _ (w : Iroh) (net : Network w) where
  -- An error is its chain of messages, the outermost first.
  unfoldable pub boot : (Text → Option Text) → Result (List Text) (Running w net)
  boot get =
      let config = from_env get in
      do
        secret ← map_err (λ e. e ∷ []) (load_secret_key get)
        (endpoint, node) ←
            map_err (λ e. text "spawn stash node" ∷ e ∷ [])
              (spawn w net secret config.retention config.relay_urls config.relay_token passthrough)
        ok (record {
          endpoint = endpoint;
          node = node;
          waker = build_waker get;
          prune_interval_min = config.prune_interval_min;
          port = config.port;
          psk = config.psk;
        })

  -- What `boot` went through, up to the state.
  booted :
      (get : Text → Option Text) (up : Running w net)
      → boot get ≡ ok up
      → (key : Bytes) × (load_secret_key get ≡ ok key)
        × (spawn w net key
              (from_env get).retention
              (from_env get).relay_urls
              (from_env get).relay_token
              passthrough
            ≡ ok (up.endpoint, up.node))
        × (up.psk ≡ (from_env get).psk)
  unfolding boot
  booted get up e =
      let (key, e1, rest) = bound_ok (map_err (λ e. e ∷ []) (load_secret_key get)) _ up e in
      let ((endpoint, node), e2, last) =
        bound_ok
          (map_err (λ e. text "spawn stash node" ∷ e ∷ [])
            (spawn w net key (from_env get).retention (from_env get).relay_urls
              (from_env get).relay_token passthrough))
          _ up rest in
      let same = ok-inj _ up last in
      (
        key,
        map_err-ok _ _ key e1,
        map_err-ok _ _ (endpoint, node) e2 ∙ ap (λ u. ok (u.endpoint, u.node)) same,
        ap (λ u. u.psk) (sym same),
      )

  -- A process that comes up with a key in `TRAIL_STASH_PSK` refuses every request but `/healthz` that does not carry
  -- that key, trimmed, as its bearer token, in every state of the node: it gets 401 and changes nothing, for
  -- keys and tokens of code points.
  pub boot_guarded :
      (get : Text → Option Text) (up : Running w net) (value : Text) (header : Option Text)
      (req : Request) (node : StashNode w)
      → boot get ≡ ok up
      → get (text "TRAIL_STASH_PSK") ≡ some value
      → is_empty (trim value) ≡ false
      → IsText (trim value)
      → IsOptionText (bearer_token header)
      → bearer_token header ≢ some (trim value)
      → req ≢ healthz
      → serve w up.psk header req node
        ≡ (node, response (with_message 401 (text "missing or invalid pre-shared key")))
  unfolding from_env setting
  boot_guarded get up value header req node e key filled p q wrong open_route =
      let (_, _, _, psk) = booted get up e in
      let same : up.psk ≡ some (trim value) = psk ∙ ground (arith, key, filled) in
      ap (λ psk. serve w psk header req node) same
      ∙ serve_denied w (trim value) header req node p q wrong open_route

  -- A process that comes up is bound under the key that the environment gives, on custom relays if the environment
  -- names one and on those of the preset only if it names none, and its node starts empty, over a replica spawned
  -- on that endpoint, with the retention of the configuration.
  pub boot_relays :
      (get : Text → Option Text) (up : Running w net)
      → boot get ≡ ok up
      → (key : Bytes) × (relays : Option net.RelayMap) × (docs : w.Docs) × (load_secret_key get
          ≡ ok key)
        × (is_none relays ≡ is_empty (from_env get).relay_urls)
        × (net.bind key relays ≡ ok up.endpoint)
        × (net.spawn_docs up.endpoint net.mem_store ≡ ok docs)
        × (up.node ≡ spawned w docs net.mem_store passthrough (from_env get).retention)
  boot_relays get up e =
      let config = from_env get in
      let (key, loaded, up_by, _) = booted get up e in
      let (relays, docs, given, bound, replica, start) =
        spawn_lem w net key config.retention config.relay_urls config.relay_token passthrough
          up.endpoint up.node up_by in
      (key, relays, docs, loaded, given, bound, replica, start)
