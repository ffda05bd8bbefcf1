-- ===== src/Node/Settle.antt =====
-- The settle loop of `rust/src/node.rs`: `settle_once`, and the wake-ups that `run_settle_loop` sends
-- after it.
pub mod Wakes
pub mod Once
pub mod Fallback
pub mod Converges
pub mod Blind
pub mod Supplied
pub mod Spaced
pub mod Attempts
use trail_stash.Base.{
  ℕ, ◌+◌, ◌-◌, ◌^◌, Bool, true, false, not, ◌&&◌, ◌||◌, none, some, List, [], ◌∷◌, ◌++◌,
  bytes_discrete, min, leb, if◌then◌else◌, saturating_sub,
}
use trail_stash.Content.{ContentHash, mark_present}
use trail_stash.HashMap
use trail_stash.HashMap.{HashMap}
use trail_stash.Iroh.{Iroh}
use trail_stash.Node.{
  TrackedEntry, StashNode, Wake, backoff_ms, wake_fallback_ms, has_blob, fetch_content, wake_for,
}

-- `filter(|entry| !entry.content_present)`, in the order of the map.
unfoldable pub outstanding : HashMap ContentHash TrackedEntry → List (ContentHash × TrackedEntry)
outstanding [] = []
outstanding ((hash, entry) ∷ tracked) =
    let rest = outstanding tracked in if entry.content_present then rest else (hash, entry) ∷ rest

-- An entry to wake, and whether it is woken without content.
pub record Settled : Type 0 where
  pub hash : ContentHash
  pub entry : TrackedEntry
  pub degraded : Bool

-- What a pass writes to an entry after its attempt. The attempts are a `u32` that saturates.
unfoldable pub attempted : ℕ → Bool → TrackedEntry → TrackedEntry → TrackedEntry
attempted now present entry live =
    if present
    then record live { content_present = true }
    else if leb entry.next_attempt_ms now
    then (let attempts = min (live.attempts + 1) (2 ^ 32 - 1) in
        record live { attempts = attempts; next_attempt_ms = now + backoff_ms attempts })
    else live

abbrev pub is_overdue : ℕ → TrackedEntry → Bool
is_overdue now live = leb wake_fallback_ms (saturating_sub now live.first_seen_ms)

-- Whether an entry is released to be woken now.
unfoldable pub is_due : ℕ → Bool → TrackedEntry → Bool
is_due now present live = not live.woken && (present || is_overdue now live)

-- What the round leaves in the map of the tracked entries.
unfoldable pub released : ℕ → Bool → TrackedEntry → TrackedEntry → TrackedEntry
released now present entry live =
    let live' = attempted now present entry live in
    if is_due now present live' then record live' { woken = true } else live'

module _ (w : Iroh) where
  -- The short circuit: the fetch is tried only if the store lacks the bytes and it is time.
  unfoldable pub obtain : ℕ → ContentHash → TrackedEntry → StashNode w → StashNode w × Bool
  obtain now hash entry node =
      if has_blob w node hash
      then (node, true)
      else if leb entry.next_attempt_ms now
      then fetch_content w hash entry node
      else (node, false)

  -- The round of the loop for one outstanding entry, once its bytes were asked for.
  unfoldable pub settle_live :
      ℕ → ContentHash → TrackedEntry → Bool → StashNode w → StashNode w × List Settled
  settle_live now hash entry present node = elim (HashMap.get bytes_discrete hash node.tracked) [
    | none ↦ (node, [])
    | some live ↦ (
      record node {
        content = if present then mark_present hash node.content else node.content;
        tracked = HashMap.insert bytes_discrete hash (released now present entry live) node.tracked;
      },
      if is_due now present (attempted now present entry live)
          then record { hash = hash; entry = entry; degraded = not present } ∷ []
          else [],
    )
  ]

  unfoldable pub settle_entry :
      ℕ → ContentHash → TrackedEntry → StashNode w → StashNode w × List Settled
  settle_entry now hash entry node =
      let (node', present) = obtain now hash entry node in settle_live now hash entry present node'

  unfoldable pub settle_all :
      ℕ → List (ContentHash × TrackedEntry) → StashNode w → StashNode w × List Settled
  settle_all now [] node = (node, [])
  settle_all now ((hash, entry) ∷ rest) node =
      let (node', wake) = settle_entry now hash entry node in
      let (node'', more) = settle_all now rest node' in (node'', wake ++ more)

  unfoldable pub settle_once : ℕ → StashNode w → StashNode w × List Settled
  settle_once now node = settle_all now (outstanding node.tracked) node

  unfoldable pub wake_all : List Settled → StashNode w → List Wake
  wake_all [] node = []
  wake_all (s ∷ settled) node =
      let rest = wake_all settled node in
      elim (wake_for w s.hash s.entry s.degraded node) [ none ↦ rest | some call ↦ call ∷ rest ]

  -- One tick of `run_settle_loop`.
  unfoldable pub settle_tick : ℕ → StashNode w → StashNode w × List Wake
  settle_tick now node =
      let (node', settled) = settle_once now node in (node', wake_all settled node')
