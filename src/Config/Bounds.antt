-- ===== src/Config/Bounds.antt =====
-- What every configuration of `rust/src/config.rs` satisfies, whatever the environment.
use trail_stash.Base.{
  ◌>>=◌, ◌∙◌, sym, ap, Option-cases, not, inr, inl, List-cases, ℕ, ◌*◌, ◌^◌, ◌≤◌, ◌<◌, ◌≡◌, ◌≢◌,
  Option, none, some, List, [], ◌∷◌, arith, All, map, unwrap_or, ◌==◌,
}
use trail_stash.Retention.{ms_per_hour, from_hours}
use trail_stash.Text.{Text, text, as_bytes, trim}
use trail_stash.Text.Trim.{trim_idem}
use trail_stash.Text.Decimal.{parse_uint-lt}
use trail_stash.Config.{
  filter, default_port, StashConfig, setting, integer, non_empty, split, from_env,
  max_retention_hours, max_prune_interval_min,
}

-- A setting is trimmed text that is not empty.
abbrev pub IsSetting : Text → Type 0
IsSetting s = (trim s ≡ s) × (s ≢ [])

abbrev pub IsOptionSetting : Option Text → Type 0
IsOptionSetting none = Unit
IsOptionSetting (some s) = IsSetting s

-- Every field within its documented bounds.
pub record IsBounded (c : StashConfig) : Type 0 where
  pub port_low : 1 ≤ c.port
  pub port_high : c.port < 2 ^ 16
  pub retention_low : ms_per_hour ≤ c.retention.retention_ms
  pub retention_high : c.retention.retention_ms ≤ max_retention_hours * ms_per_hour
  pub prune_low : 1 ≤ c.prune_interval_min
  pub prune_high : c.prune_interval_min ≤ max_prune_interval_min
  pub relay_urls : All IsSetting c.relay_urls
  pub relay_token : IsOptionSetting c.relay_token
  pub psk : IsOptionSetting c.psk

cons-ne-nil : (c : ℕ) (r : Text) → c ∷ r ≢ []
cons-ne-nil c r = λ e. cc

setting-IsOptionSetting : (value : Option Text) → IsOptionSetting (setting value)
unfolding setting
setting-IsOptionSetting none = tt
setting-IsOptionSetting (some v) = elim (List-cases (trim v)) [
  | inl e ↦ rw e tt
  | inr (c, r, e) ↦
      let trimmed : trim (c ∷ r) ≡ c ∷ r = ap trim (sym e) ∙ trim_idem v ∙ e in
      rw e (trimmed, cons-ne-nil c r)
]

non_empty-IsSetting : (list : List Text) → All IsSetting (non_empty (map trim list))
unfolding non_empty
non_empty-IsSetting [] = tt
non_empty-IsSetting (s ∷ list) = elim (List-cases (trim s)) [
  | inl e ↦ rw e (non_empty-IsSetting list)
  | inr (c, r, e) ↦
      let trimmed : trim (c ∷ r) ≡ c ∷ r = ap trim (sym e) ∙ trim_idem s ∙ e in
      rw e ((trimmed, cons-ne-nil c r), non_empty-IsSetting list)
]

relay_urls-IsSetting :
    (value : Option Text)
    → All IsSetting (unwrap_or [] (do v ← value; some (non_empty (map trim (split b',' v)))))
relay_urls-IsSetting none = tt
relay_urls-IsSetting (some v) = non_empty-IsSetting (split b',' v)

integer-lt :
    (bound n : ℕ) (value : Option Text) → 0 < bound → integer bound value ≡ some n → n < bound
unfolding integer
integer-lt bound n none h e = cc
integer-lt bound n (some v) h e = parse_uint-lt bound (as_bytes (trim v)) n h e

port-lt :
    (value : Option Text)
    → unwrap_or default_port (filter (λ p. not (p == 0)) (integer (2 ^ 16) value)) < 2 ^ 16
port-lt value = elim (Option-cases (integer (2 ^ 16) value)) [
  | inl e ↦ rw e (omega arith)
  | inr (n, e) ↦ let small = integer-lt (2 ^ 16) n value (omega arith) e in ground arith
]

-- Whatever the environment holds, the port is a valid one, the window lies between one hour and
-- two weeks, the interval between sweeps between a minute and a day, and every relay URL,
-- the relay token and the key, where set, are trimmed and not empty.
pub from_env-IsBounded : (get : Text → Option Text) → IsBounded (from_env get)
unfolding from_env from_hours
from_env-IsBounded get = record {
  port_low = ground arith;
  port_high = port-lt (get (text "PORT"));
  retention_low = ground arith;
  retention_high = ground arith;
  prune_low = ground arith;
  prune_high = ground arith;
  relay_urls = relay_urls-IsSetting (get (text "TRAIL_STASH_RELAY_URLS"));
  relay_token = setting-IsOptionSetting (get (text "TRAIL_STASH_RELAY_TOKEN"));
  psk = setting-IsOptionSetting (get (text "TRAIL_STASH_PSK"));
}
