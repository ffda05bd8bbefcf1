-- ===== src/Node/Receive.antt =====
-- `spawn_watch` of `rust/src/node.rs`: what one `LiveEvent::InsertRemote` does.
pub mod Wakes
use trail_stash.Base.{
  List, [], ◌∷◌, ℕ, Bool, false, not, ◌&&◌, Option, none, some, bytes_discrete, if◌then◌else◌,
  ◌>>=◌,
}
use trail_stash.Content.{ContentHash, NamespaceId, want, mark_present}
use trail_stash.HashMap
use trail_stash.HashMap.{HashMap}
use trail_stash.Iroh.{Iroh, EndpointId, DocEntry}
use trail_stash.Node.{TrackedEntry, StashNode, Wake, decode_author_seq, has_blob, wake_for}

-- `tracked.entry(hash).or_insert_with(entry.clone())`: the map, and the entry that it then holds.
unfoldable pub or_insert :
    ContentHash
    → TrackedEntry
    → HashMap ContentHash TrackedEntry
    → HashMap ContentHash TrackedEntry × TrackedEntry
or_insert hash entry tracked = elim (HashMap.get bytes_discrete hash tracked) [
  | none ↦ (HashMap.insert bytes_discrete hash entry tracked, entry)
  | some known ↦ (tracked, known)
]

-- What the watcher distinguishes of `LiveEvent`; the time is that of the clock when the event is handled.
pub data LiveEvent : Type 0 where
  insert : DocEntry → EndpointId → ℕ → LiveEvent
  other : LiveEvent

module _ (w : Iroh) where
  -- The entry that the watcher builds.
  unfoldable pub new_entry : NamespaceId → DocEntry → EndpointId → ℕ → Bool → TrackedEntry
  new_entry ns entry from now present =
      let (author, seq) = decode_author_seq entry.key in
      record {
        namespace = ns;
        author = author;
        delivered_by = from;
        seq = seq;
        first_seen_ms = now;
        content_present = present;
        woken = present;
        next_attempt_ms = 0;
        attempts = 0;
      }

  -- The state after the event, and the entry that is ready to wake.
  unfoldable pub receive :
      NamespaceId → DocEntry → EndpointId → ℕ → StashNode w → StashNode w × Option TrackedEntry
  receive ns entry from now node =
      let hash = entry.content_hash in
      let wanted = want ns hash node.content in
      let present = has_blob w node hash in
      let fresh = new_entry ns entry from now present in
      let (tracked, held) = or_insert hash fresh node.tracked in
      let content = if present then mark_present hash wanted else wanted in
      (
        record node { content = content; tracked = tracked },
        if present && not held.woken then some fresh else none,
      )

  -- The event with the wake-up that follows it.
  unfoldable pub insert_remote :
      NamespaceId → DocEntry → EndpointId → ℕ → StashNode w → StashNode w × Option Wake
  insert_remote ns entry from now node =
      let (node', ready) = receive ns entry from now node in
      (node', do e ← ready; wake_for w entry.content_hash e false node')

  -- `insert_remote` at its time, for an event of the stream.
  unfoldable pub handle_event : NamespaceId → LiveEvent → StashNode w → StashNode w × Option Wake
  handle_event ns (insert entry from now) node = insert_remote ns entry from now node
  handle_event ns other node = (node, none)

  -- The loop of the watcher, which ends at the first error of the stream: the state after it, and the wake-ups.
  unfoldable pub watch :
      NamespaceId → List (Option LiveEvent) → StashNode w → StashNode w × List Wake
  watch ns [] node = (node, [])
  watch ns (none ∷ events) node = (node, [])
  watch ns (some event ∷ events) node =
      let (node', woken) = handle_event ns event node in
      let (node'', more) = watch ns events node' in
      (node'', elim woken [ none ↦ more | some call ↦ call ∷ more ])
