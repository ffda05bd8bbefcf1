-- ===== src/Tests/Boot.antt =====
-- `main` of `rust/src/bin/trail-stash.rs` in an environment in which every variable has the same value.
use trail_stash.Boot.Ends.{
  main, main_ends, wanted, Asked, shutdown_signal, Waited, pipelines, by_signal,
}
use trail_stash.Telemetry.{OtelSettings, otel_settings}
use trail_stash.Telemetry.{trim_end_matches, instance_id, short_hex}
use trail_stash.Text.Hex.{hex_encode, lower_digit}
use trail_stash.Base.{
  true, if◌then◌else◌, if◌then◌else◌, ◌↔◌, some, true, arith, ◌≡◌, refl, none, [],
}
use trail_stash.Boot.{signalled, Running, boot, boot_guarded}
use trail_stash.Config.{from_env, split, non_empty}
use trail_stash.Http.{Request, response, with_message, serve}
use trail_stash.Mls.{passthrough}
use trail_stash.Node.Spawn.{Network, spawn, relay_map_of}
use trail_stash.Node.Run.{spawned}
use trail_stash.Result.{err, is_ok, ok}
use trail_stash.Tests.Api.{environment, loaded}
use trail_stash.Tests.Node.{store, home, photo, waiting}
use trail_stash.Text.{text, trim, trim_start, trim_end, is_whitespace}
use trail_stash.Auth.{bearer_token}
use trail_stash.Waker.{build_waker}

abbrev network : Network store
network = record {
  Endpoint = Unit {0};
  RelayMap = Unit {0};
  relay_map = λ urls. ok tt;
  with_auth_token = λ token map. map;
  bind = λ key relays. ok tt;
  mem_store = [];
  spawn_docs = λ endpoint blobs. ok tt;
}

abbrev running : Running store network
running = record {
  endpoint = tt;
  node = spawned store tt [] passthrough (from_env environment).retention;
  waker = build_waker environment;
  prune_interval_min = (from_env environment).prune_interval_min;
  port = (from_env environment).port;
  psk = (from_env environment).psk;
}

comes_up : boot store network environment ≡ ok running
unfolding boot spawn relay_map_of from_env non_empty split trim trim_start trim_end is_whitespace
comes_up = rw loaded refl

boot_guarded_example :
    serve store running.psk none (Request.get_content home photo) waiting
    ≡ (waiting, response (with_message 401 (text "missing or invalid pre-shared key")))
unfolding bearer_token trim trim_start trim_end is_whitespace
boot_guarded_example =
    boot_guarded store network environment running
      (text " 1313131313131313131313131313131313131313131313131313131313131313") none
      (Request.get_content home photo) waiting comes_up refl refl (omega arith) tt (λ e. cc)
      (λ e. ground (arith, e))

abbrev asked_for : OtelSettings
asked_for = record {
  traces_endpoint =
      text "1313131313131313131313131313131313131313131313131313131313131313/v1/traces";
  logs_endpoint = text "1313131313131313131313131313131313131313131313131313131313131313/v1/logs";
  service_name = text " 1313131313131313131313131313131313131313131313131313131313131313";
  service_instance_id = text "1313131313";
}

exporters : wanted (λ e. true) none (λ s. s) (λ key. key) store network environment ≡ some asked_for
unfolding otel_settings trim trim_start trim_end is_whitespace trim_end_matches instance_id
    short_hex hex_encode lower_digit
exporters = rw (wanted, loaded) refl

main_ends_example :
    let (left, flushed, result) =
      main (λ e. true) none (λ s. s) (λ key. key) store network environment signalled in
    ((is_ok result ≡ true) ↔ (
      (is_ok (boot store network environment) ≡ true)
      × Asked Waited.waiting (err (text "no handler")) none signalled))
    × (left ≡ (
        if is_ok result
        then none
        else wanted (λ e. true) none (λ s. s) (λ key. key) store network environment))
    × (flushed ≡ (
        if is_ok result
        then pipelines (wanted (λ e. true) none (λ s. s) (λ key. key) store network environment)
        else []))
unfolding shutdown_signal
main_ends_example =
    main_ends (λ e. true) none (λ s. s) (λ key. key) store network environment Waited.waiting
      (err (text "no handler")) none signalled (by_signal refl)
