-- ===== src/Config.antt =====
-- `rust/src/config.rs`: the configuration from the environment, which is a function from names to
-- values.
pub mod Bounds
use trail_stash.Base.{
  ℕ, zero, suc, ◌*◌, ◌^◌, ◌∷◌, [], List, Bool, not, Option, none, some, map, min, max, ◌==◌,
  if◌then◌else◌, ◌>>=◌, unwrap_or, is_empty,
}
use trail_stash.Retention.{RetentionPolicy, from_hours}
use trail_stash.Text.{Text, text, as_bytes, trim}
use trail_stash.Text.Decimal.{parse_uint}

abbrev pub default_port : ℕ
default_port = 8787

abbrev pub default_retention_hours : ℕ
default_retention_hours = 48

abbrev pub min_retention_hours : ℕ
min_retention_hours = 1

abbrev pub max_retention_hours : ℕ
max_retention_hours = 24 * 14

abbrev pub default_prune_interval_min : ℕ
default_prune_interval_min = 15

abbrev pub min_prune_interval_min : ℕ
min_prune_interval_min = 1

abbrev pub max_prune_interval_min : ℕ
max_prune_interval_min = 24 * 60

pub record StashConfig : Type 0 where
  pub port : ℕ
  pub retention : RetentionPolicy
  pub prune_interval_min : ℕ
  pub relay_urls : List Text
  pub relay_token : Option Text
  pub psk : Option Text

-- `Ord::clamp`
abbrev pub clamp : ℕ → ℕ → ℕ → ℕ
clamp low high x = max low (min x high)

-- `Option::filter`
abbrev pub filter {ℓ} : {A : Type ℓ} → (A → Bool) → Option A → Option A
filter keep none = none
filter keep (some a) = if keep a then some a else none

-- `split(',')`
unfoldable pub split : ℕ → Text → List Text
split sep [] = [] ∷ []
split sep (c ∷ s) = elim (split sep s) [
  | [] ↦ [] ∷ []
  | piece ∷ pieces ↦ if c == sep then [] ∷ piece ∷ pieces else (c ∷ piece) ∷ pieces
]

-- `filter(|url| !url.is_empty())`
unfoldable pub non_empty : List Text → List Text
non_empty [] = []
non_empty (s ∷ list) = let rest = non_empty list in if is_empty s then rest else s ∷ rest

-- A setting that is trimmed, and unset if nothing is left.
unfoldable pub setting : Option Text → Option Text
setting value = filter (λ v. not (is_empty v)) (do v ← value; some (trim v))

-- An integer of the width whose values are below the bound.
unfoldable pub integer : ℕ → Option Text → Option ℕ
integer bound value = do v ← value; parse_uint bound (as_bytes (trim v))

unfoldable pub from_env : (Text → Option Text) → StashConfig
from_env get = record {
  port = unwrap_or default_port (filter (λ p. not (p == 0)) (integer (2 ^ 16) (get (text "PORT"))));
  retention = from_hours (
      clamp min_retention_hours max_retention_hours (
        unwrap_or default_retention_hours
          (integer (2 ^ 64) (get (text "TRAIL_STASH_RETENTION_HOURS")))));
  prune_interval_min = clamp min_prune_interval_min max_prune_interval_min (
      unwrap_or default_prune_interval_min
        (integer (2 ^ 64) (get (text "TRAIL_STASH_PRUNE_INTERVAL_MIN"))));
  relay_urls =
      unwrap_or []
        (do v ← get (text "TRAIL_STASH_RELAY_URLS"); some (non_empty (map trim (split b',' v))));
  relay_token = setting (get (text "TRAIL_STASH_RELAY_TOKEN"));
  psk = setting (get (text "TRAIL_STASH_PSK"));
}
