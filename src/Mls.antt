-- ===== src/Mls.antt =====
-- `rust/src/mls.rs`: the delivery-service seam. A delivery service is a function on envelopes.
use trail_stash.Base.{ℕ, Bytes}
use trail_stash.Content.{NamespaceId}
use trail_stash.Text.{Text}

pub record EnvelopeRef : Type 0 where
  pub namespace : NamespaceId
  pub author : Bytes
  pub seq : ℕ
  pub bytes : Bytes

pub data Admission : Type 0 where
  accept : Admission
  reject : Text → Admission

-- The trait.
abbrev pub DeliveryService : Type 0
DeliveryService = EnvelopeRef → Admission

-- `PassthroughDelivery::admit`
unfoldable pub passthrough : DeliveryService
passthrough envelope = accept

abbrev pub default_delivery : DeliveryService
default_delivery = passthrough
