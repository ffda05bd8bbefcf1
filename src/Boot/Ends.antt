-- ===== src/Boot/Ends.antt =====
-- `main` of `rust/src/bin/trail-stash.rs` from its first line to its last: `init_tracing`, what it waits for, and
-- what it has flushed when it returns, in a build with `otel`.
use trail_stash.Base.{
  ◌≢◌, ◌&&◌, refl, false, true, ◌≡◌, ◌||◌, ◌⊎◌, inl, inr, ◌↔◌, Option, none, some, List, [], ◌∷◌,
  Bytes, unwrap_or, if◌then◌else◌, Bool, arith,
}
use trail_stash.Boot.{ApiTask, boot, Ending, signalled, served, finish}
use trail_stash.Iroh.{Iroh, EndpointId}
use trail_stash.Main.{load_secret_key}
use trail_stash.Node.Spawn.{Network}
use trail_stash.Result.{Result, ok, err, is_ok, Result-cases}
use trail_stash.Telemetry.{
  otel_settings, Providers, Pipeline, traces, logs, shutdown, otel_layers, instance_id,
  format_event,
}
use trail_stash.Text.{Text, text}

-- The subscriber: what filters the events, how the console writes one, and whether the OTLP layers are in it.
pub record Subscriber {ℓ} (Filter : Type ℓ) : Type ℓ where
  pub filter : Filter
  pub format : Bytes → Bytes
  pub exporting : Bool

-- What the wait for Ctrl-C has come to.
pub data Waited : Type 0 where
  waiting came : Waited
  broken : Text → Waited

-- Whether `shutdown_signal` has resolved: the end of the wait for Ctrl-C counts whatever it is, and so does a
-- handler for SIGTERM that cannot be installed; one that is installed has had a signal or not.
unfoldable pub shutdown_signal : Waited → Result Text Bool → Bool
shutdown_signal ctrl_c sigterm =
    (elim ctrl_c [ waiting ↦ false | came ↦ true | broken _ ↦ true ])
    || (elim sigterm [ ok received ↦ received | err _ ↦ true ])

-- How the `select!` of `main` may end, by what the task of the control API has come to, if it has ended.
pub data Stops (signal : Bool) (api : Option ApiTask) : Ending → Type 0 where
  by_signal : signal ≡ true → Stops signal api signalled
  by_api : (r : ApiTask) → api ≡ some r → Stops signal api (served r)

-- Whether the wait ends without an error.
abbrev pub is_asked : Ending → Bool
is_asked signalled = true
is_asked (served (err e)) = false
is_asked (served (ok (err e))) = false
is_asked (served (ok (ok _))) = true

-- Whether the wait for a signal is over: that for Ctrl-C is, or SIGTERM came, or its handler cannot be installed.
abbrev pub Signalled : Waited → Result Text Bool → Type 0
Signalled ctrl_c sigterm =
    (ctrl_c ≢ Waited.waiting) ⊎ ((sigterm ≡ ok true) ⊎ ((e : Text) × (sigterm ≡ err e)))

shutdown_signal-Signalled :
    (ctrl_c : Waited) (sigterm : Result Text Bool)
    → (shutdown_signal ctrl_c sigterm ≡ true) ↔ Signalled ctrl_c sigterm
unfolding shutdown_signal
shutdown_signal-Signalled Waited.waiting (ok true) = (λ _. inr (inl refl), λ _. refl)
shutdown_signal-Signalled Waited.waiting (ok false) =
    (λ e. absurd (ground (arith, e)), λ s. ground (arith, s))
shutdown_signal-Signalled Waited.waiting (err e) = (λ _. inr (inr (e, refl)), λ _. refl)
shutdown_signal-Signalled Waited.came sigterm = (λ _. inl (λ e. ground (arith, e)), λ _. refl)
shutdown_signal-Signalled (Waited.broken m) sigterm = (λ _. inl (λ e. ground (arith, e)), λ _. refl)

-- What such an end has behind it.
abbrev pub Asked : Waited → Result Text Bool → Option ApiTask → Ending → Type 0
Asked ctrl_c sigterm api ending =
    ((ending ≡ signalled) × Signalled ctrl_c sigterm)
    ⊎ ((ending ≡ served (ok (ok tt))) × (api ≡ some (ok (ok tt))))

Asked-iff :
    (ctrl_c : Waited) (sigterm : Result Text Bool) {api : Option ApiTask} {ending : Ending}
    → Stops (shutdown_signal ctrl_c sigterm) api ending
    → (is_asked ending ≡ true) ↔ Asked ctrl_c sigterm api ending
Asked-iff ctrl_c sigterm (by_signal e) =
    (λ _. inl (refl, (shutdown_signal-Signalled ctrl_c sigterm).0 e), λ _. refl)
Asked-iff ctrl_c sigterm (by_api (err e) p) = (λ q. cc, λ a. ground (arith, a))
Asked-iff ctrl_c sigterm (by_api (ok (err e)) p) = (λ q. cc, λ a. ground (arith, a))
Asked-iff ctrl_c sigterm (by_api (ok (ok tt)) p) = (λ q. inr (refl, p), λ a. refl)

-- The pipelines of the exporters.
abbrev pub pipelines : Providers → List Pipeline
pipelines none = []
pipelines (some settings) = traces settings ∷ logs settings ∷ []

shutdown_lem : (providers : Providers) → shutdown providers ≡ (none, pipelines providers)
unfolding shutdown
shutdown_lem none = refl
shutdown_lem (some settings) = refl

-- `builds` says whether the exporter of an endpoint can be built; the filter of the environment, if it can be read,
-- and the filter of a text are the tracing crate's, the public key of a secret key is iroh's.
module _ {ℓ} {Filter : Type ℓ} (builds : Text → Bool) (default_env : Option Filter)
    (new_filter : Text → Filter) (public : Bytes → EndpointId) where
  unfoldable pub init_tracing :
      Bytes → (Text → Option Text) → Providers → Providers × Subscriber Filter
  init_tracing secret get providers =
      let (providers, layers) = otel_layers builds (instance_id (public secret)) get providers in
      (
        providers,
        record {
          filter = unwrap_or (new_filter (text "info")) default_env;
          format = format_event;
          exporting = layers;
        },
      )

  module _ (w : Iroh) (net : Network w) where
    -- The exporters that run after `main`, those that it flushed, and what it returns.
    unfoldable pub main :
        (Text → Option Text) → Ending → Providers × List Pipeline × Result (List Text) (Unit {0})
    main get ending = elim (load_secret_key get) [
      | err e ↦ (none, [], err (e ∷ []))
      | ok secret ↦
          let (providers, _) = init_tracing secret get none in
          elim (boot w net get) [
            | err chain ↦ (providers, [], err chain)
            | ok up ↦ finish ending providers
          ]
    ]

    -- The exporters that the environment asks for, under the name of the key that it gives.
    abbrev pub wanted : (Text → Option Text) → Providers
    wanted get = elim (load_secret_key get) [
      | err e ↦ none
      | ok secret ↦ otel_settings builds (instance_id (public secret)) get
    ]

    boot_keyless :
        (get : Text → Option Text) (e : Text)
        → load_secret_key get ≡ err e
        → boot w net get ≡ err (e ∷ [])
    unfolding boot
    boot_keyless get e p = rw p refl

    started_lem :
        (secret : Bytes) (get : Text → Option Text)
        → load_secret_key get ≡ ok secret
        → (init_tracing secret get none).0 ≡ wanted get
    unfolding init_tracing otel_layers
    started_lem secret get p = ground (arith, p)

    -- What a `main` that fails leaves is what it has started, and one that succeeds has flushed that.
    abbrev Outcome : Providers → Providers × List Pipeline × Result (List Text) (Unit {0}) → Type 0
    Outcome started (left, flushed, result) =
        (left ≡ (if is_ok result then none else started))
        × (flushed ≡ (if is_ok result then pipelines started else []))

    finish-Outcome :
        (ending : Ending) (started : Providers) → Outcome started (finish ending started)
    unfolding finish
    finish-Outcome signalled started = rw (shutdown_lem started) (refl, refl)
    finish-Outcome (served (err e)) started = (refl, refl)
    finish-Outcome (served (ok (err e))) started = (refl, refl)
    finish-Outcome (served (ok (ok _))) started = rw (shutdown_lem started) (refl, refl)

    finish-is_ok :
        (ending : Ending) (started : Providers) → is_ok (finish ending started).2 ≡ is_asked ending
    unfolding finish
    finish-is_ok signalled started = refl
    finish-is_ok (served (err e)) started = refl
    finish-is_ok (served (ok (err e))) started = refl
    finish-is_ok (served (ok (ok _))) started = refl

    main-Outcome :
        (get : Text → Option Text) (ending : Ending) → Outcome (wanted get) (main get ending)
    unfolding main
    main-Outcome get ending = elim (Result-cases (load_secret_key get)) [
      | inr (e, p) ↦ rw (main, p) (ground (arith, p), refl)
      | inl (secret, p) ↦ elim (Result-cases (boot w net get)) [
        | inr (chain, q) ↦ rw (main, p, q) (started_lem secret get p, refl)
        | inl (up, q) ↦
            rw (main, p, q, started_lem secret get p) (finish-Outcome ending (wanted get))
      ]
    ]

    main-is_ok :
        (get : Text → Option Text) (ending : Ending)
        → is_ok (main get ending).2 ≡ (is_ok (boot w net get) && is_asked ending)
    unfolding main
    main-is_ok get ending = elim (Result-cases (load_secret_key get)) [
      | inr (e, p) ↦ rw (main, p, boot_keyless get e p) refl
      | inl (secret, p) ↦ elim (Result-cases (boot w net get)) [
        | inr (chain, q) ↦ rw (main, p, q) refl
        | inl (up, q) ↦ rw (main, p, q) (finish-is_ok ending _)
      ]
    ]

    -- When `main` ends, it has succeeded exactly if the process came up, and then the wait ended by `shutdown_signal`,
    -- because the wait for Ctrl-C was over, SIGTERM came or its handler could not be installed, or by a
    -- control API that returned with no error; that is where it flushes both exporters, if the
    -- environment asks for any, and leaves none, and otherwise it leaves running, unflushed, those that it asks for.
    pub main_ends :
        (get : Text → Option Text) (ctrl_c : Waited) (sigterm : Result Text Bool)
        (api : Option ApiTask) (ending : Ending)
        → Stops (shutdown_signal ctrl_c sigterm) api ending
        → let (left, flushed, result) = main get ending in
          ((is_ok result ≡ true)
            ↔ ((is_ok (boot w net get) ≡ true) × Asked ctrl_c sigterm api ending))
          × (left ≡ (if is_ok result then none else wanted get))
          × (flushed ≡ (if is_ok result then pipelines (wanted get) else []))
    main_ends get ctrl_c sigterm api ending stops =
        let (left, flushed) = main-Outcome get ending in
        let same = main-is_ok get ending in
        let (to, from) = Asked-iff ctrl_c sigterm stops in
        (
          (
            λ e. (ground (arith, same, e), to (ground (arith, same, e))),
            λ (up, by). rw (same, up, from by) refl,
          ),
          left,
          flushed,
        )
