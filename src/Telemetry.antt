-- ===== src/Telemetry.antt =====
-- `rust/src/telemetry.rs`, and the console format of `rust/src/bin/trail-stash.rs`: identifiers, settings,
-- trace headers and the redaction of log records. The OpenTelemetry pipeline itself is outside.
pub mod ShortHex
use trail_stash.Base.{
  ℕ, Bool, true, false, ◌&&◌, not, Option, none, some, List, [], ◌∷◌, ◌++◌, Bytes, bytes_discrete,
  take, is_empty, unwrap_or, if◌then◌else◌, ite, ◌==◌, ◌>>=◌, is_some_and,
}
use trail_stash.HashMap
use trail_stash.HashMap.{HashMap}
use trail_stash.Iroh.{EndpointId}
use trail_stash.LogRedaction.{redact_log_line}
use trail_stash.Text.{Text, text, trim}
use trail_stash.Text.Hex.{hex_encode}

unfoldable pub short_hex : Bytes → Text
short_hex bytes = hex_encode (take 5 bytes)

unfoldable pub instance_id : EndpointId → Text
instance_id endpoint_id = short_hex endpoint_id

-- `trim_end_matches('/')`
unfoldable pub trim_end_matches : ℕ → Text → Text
trim_end_matches c [] = []
trim_end_matches c (d ∷ s) = elim (trim_end_matches c s) [
  | [] ↦ if d == c then [] else d ∷ []
  | e ∷ r ↦ d ∷ e ∷ r
]

-- The settings of the exporters and of their resource.
pub record OtelSettings : Type 0 where
  pub traces_endpoint : Text
  pub logs_endpoint : Text
  pub service_name : Text
  pub service_instance_id : Text

abbrev pub filtered : (Text → Bool) → Option Text → Option Text
filtered keep none = none
filtered keep (some s) = if keep s then some s else none

-- What `otel_layers` sets up, where `builds` says whether the exporter of an endpoint can be built: with no endpoint
-- or no exporter there are no layers.
unfoldable pub otel_settings : (Text → Bool) → Text → (Text → Option Text) → Option OtelSettings
otel_settings builds instance get = do
  endpoint ←
      filtered (λ e. not (is_empty e))
        (do e ← get (text "OTEL_EXPORTER_OTLP_ENDPOINT"); some (trim_end_matches b'/' (trim e)))
  (let traces = endpoint ++ text "/v1/traces" in
      let logs = endpoint ++ text "/v1/logs" in
      if builds traces && builds logs
      then some (record {
        traces_endpoint = traces;
        logs_endpoint = logs;
        service_name =
            unwrap_or (text "trail-stash")
              (filtered (λ s. not (is_empty (trim s))) (get (text "OTEL_SERVICE_NAME")));
        service_instance_id = instance;
      })
      else none)

-- The global `PROVIDERS`: the exporters that run, by their settings.
abbrev pub Providers : Type 0
Providers = Option OtelSettings

-- `otel_layers`: the exporters that run after it, and whether there are layers.
unfoldable pub otel_layers :
    (Text → Bool) → Text → (Text → Option Text) → Providers → Providers × Bool
otel_layers builds instance get providers = elim (otel_settings builds instance get) [
  | none ↦ (providers, false)
  | some settings ↦ (some settings, true)
]

-- An exporter that is flushed and shut down.
pub data Pipeline : Type 0 where
  traces logs : OtelSettings → Pipeline

-- The exporters are taken, and shut down one after the other.
unfoldable pub shutdown : Providers → Providers × List Pipeline
shutdown none = (none, [])
shutdown (some settings) = (none, traces settings ∷ logs settings ∷ [])

-- A carrier of the trace context.
abbrev pub Carrier : Type 0
Carrier = HashMap Text Text

-- `traceparent_of`, from the carrier that the propagator filled for the span.
unfoldable pub traceparent_of : Carrier → Option Text
traceparent_of carrier =
    filtered (λ tp. not (is_empty tp)) (HashMap.get bytes_discrete (text "traceparent") carrier)

-- One round of the loop over the headers that `http_request_span` copies.
unfoldable pub add_header : (Text → Option Text) → Text → Carrier → Carrier
add_header header key carrier = elim (header key) [
  | none ↦ carrier
  | some v ↦ HashMap.insert bytes_discrete key v carrier
]

-- Each header is read by `headers().get(key)` and `to_str`.
unfoldable pub carrier_of : (Text → Option Text) → Carrier
carrier_of header =
    add_header header (text "tracestate") (add_header header (text "traceparent") [])

-- The parent that `http_request_span` sets, by the propagator's `extract`.
unfoldable pub request_parent {ℓ} :
    {Context : Type ℓ} → (Carrier → Context) → (Text → Option Text) → Option Context
request_parent extract header =
    let carrier = carrier_of header in
    if is_some_and (λ _. true) (HashMap.get bytes_discrete (text "traceparent") carrier)
    then some (extract carrier)
    else none

-- The span of one request to the control API.
pub record RequestSpan {ℓ} (Context : Type ℓ) : Type ℓ where
  pub method : Text
  pub path : Text
  pub parent : Option Context
  pub status_code : ℕ

-- `http_request_span`: what the handler answers, by its status, and the span around it.
unfoldable pub http_request_span {ℓ} :
    {Context Reply : Type ℓ}
    → (Carrier → Context)
    → (Reply → ℕ)
    → Text
    → Text
    → (Text → Option Text)
    → Reply
    → Reply × RequestSpan Context
http_request_span extract status method path header reply = (
  reply,
  record {
    method = method;
    path = path;
    parent = request_parent extract header;
    status_code = status reply;
  },
)

-- The body of a log record: a string, or another value.
pub data LogBody {ℓ} (Other : Type ℓ) : Type ℓ where
  string : Bytes → LogBody Other
  other : Other → LogBody Other

-- What `RedactingLogProcessor::emit` passes on.
unfoldable pub emit {ℓ} : {Other : Type ℓ} → Option (LogBody Other) → Option (LogBody Other)
emit none = none
emit (some (other v)) = some (other v)
emit (some (string s)) =
    let redacted = redact_log_line s in
    ite (bytes_discrete redacted s) (some (string s)) (some (string redacted))

-- What `RedactingFormat::format_event` writes of a formatted event.
unfoldable pub format_event : Bytes → Bytes
format_event formatted = redact_log_line formatted
