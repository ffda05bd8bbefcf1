-- ===== src/Tests/Abstract.antt =====
-- The abstract node of `rust/src/node.rs` at a concrete state.
use trail_stash.Base.{none, []}
use trail_stash.Mls.{passthrough}
use trail_stash.Node.{StashNode}
use trail_stash.Node.Abstract.{Swept}
use trail_stash.Node.Abstract.Loops.{view}
use trail_stash.Node.Abstract.Simulates.{reachable_simulates}
use trail_stash.Node.Register.{register}
use trail_stash.Node.Receive.{receive}
use trail_stash.Node.Prune.{prune_once}
use trail_stash.Node.Run.{Step, Reach}
use trail_stash.Node.Sweep.{keeps}
use trail_stash.Result.{is_ok}
use trail_stash.Node.Serve.{put_content}
use trail_stash.Retention.{from_hours}
use trail_stash.Tests.Node.{store, home, photo, peer, arriving, fresh_node}

-- A registration, the record of a photo and its upload.
abbrev enrolled : StashNode store
enrolled = (register store home none fresh_node).0

abbrev informed : StashNode store
informed = (receive store home arriving peer 1000 enrolled).0

abbrev supplied : StashNode store
supplied = (put_content store home photo photo informed).0

supplied-Reach : Reach store fresh_node supplied
supplied-Reach =
    Reach.next
      (Reach.next (Reach.next Reach.here (Step.registered home none))
        (Step.received home arriving peer 1000))
      (Step.put home photo photo)

reachable_simulates_example :
    Swept
      (view store supplied)
      (view store (prune_once store 9000000000 supplied).0)
      (is_ok (prune_once store 9000000000 supplied).1)
      (λ ns h. keeps store 9000000000 ns h supplied)
reachable_simulates_example =
    reachable_simulates store tt [] passthrough (from_hours 48) supplied
      (prune_once store 9000000000 supplied).0 supplied-Reach (Step.pruned 9000000000)
