-- ===== src/EventLoop/Bridge.antt =====
-- src/event_loop.rs: runs of the bridge on its own, while the other threads stand.
use reactive_graph_experimen.Base.{
  ◌≡◌, refl, sym, ap, ◌∙◌, subst, true, false, inl, inr, List, [], ◌∷◌, ◌++◌, append_assoc,
  append-nil, Bool-cases,
}
use reactive_graph_experimen.NodeRef.{NodeId}
use reactive_graph_experimen.ValueStore.{AnyBox}
use reactive_graph_experimen.EventLoop.{source_ready}
use reactive_graph_experimen.EventLoop.System.{
  System, send_command, forward, notify, forwards, notifies, Runs, stay, then_step, Reachable,
  internal,
}
use reactive_graph_experimen.EventLoop.Commands.{sources}

module _ (order : List NodeId → List NodeId) where
  pub Runs-trans : {s t u : System} → Runs order s t → Runs order t u → Runs order s u
  Runs-trans first (stay t) = first
  Runs-trans first (then_step rest step) = then_step (Runs-trans first rest) step

  pub Runs-Reachable : {s t : System} → Reachable order s → Runs order s t → Reachable order t
  Runs-Reachable r (stay s) = r
  Runs-Reachable r (then_step rest step) = internal (Runs-Reachable r rest) step

  -- The bridge has emptied its queue, in order, while the loop waits.
  pub record Relayed (s t : System) : Type 0 where
    pub runs : Runs order s t
    pub idle : t.forwarded ≡ false
    pub emptied : t.state.bridge_rx ≡ []
    pub arrived : sources t.state ≡ sources s.state ++ s.state.bridge_rx
    pub waits : t.phase ≡ s.phase

  -- The bridge has passed on the first value of its queue, and has yet to send its command.
  abbrev passed_on : System → NodeId × AnyBox → List (NodeId × AnyBox) → System
  passed_on s message rest = record s {
    state = record s.state {
      engine = record s.state.engine {
        graph = record s.state.engine.graph { source_rx = sources s.state ++ message ∷ [] };
      };
      bridge_rx = rest;
    };
    forwarded = true;
  }

  -- The bridge has sent the command too.
  abbrev relay : System → NodeId × AnyBox → List (NodeId × AnyBox) → System
  relay s message rest = record (passed_on s message rest) {
    forwarded = false;
    cmd_rx = s.cmd_rx ++ source_ready ∷ [];
  }

  forward-idle :
      (s : System) (message : NodeId × AnyBox) (rest : List (NodeId × AnyBox))
      → s.forwarded ≡ false
      → s.state.bridge_rx ≡ message ∷ rest
      → forward s ≡ passed_on s message rest
  unfolding forward
  forward-idle s message rest idle queue = rw (idle, queue, forward) refl

  relay-Runs :
      (s : System) (message : NodeId × AnyBox) (rest : List (NodeId × AnyBox))
      → s.forwarded ≡ false
      → s.state.bridge_rx ≡ message ∷ rest
      → Runs order s (relay s message rest)
  unfolding notify send_command
  relay-Runs s message rest idle queue =
      then_step
        (subst (Runs order s) (forward-idle s message rest idle queue)
          (then_step (stay s) (forwards s)))
        (notifies (passed_on s message rest))

  pub relay_all :
      (queue : List (NodeId × AnyBox)) (s : System)
      → s.forwarded ≡ false
      → s.state.bridge_rx ≡ queue
      → (t : System) × Relayed s t
  relay_all [] s idle q = (
    s,
    record {
      runs = stay s;
      idle = idle;
      emptied = q;
      arrived = sym (append-nil (sources s.state)) ∙ ap (λ queue. sources s.state ++ queue) (sym q);
      waits = refl;
    },
  )
  relay_all (message ∷ rest) s idle q =
      let (t, later) = relay_all rest (relay s message rest) refl refl in
      (
        t,
        record {
          runs = Runs-trans (relay-Runs s message rest idle q) later.runs;
          idle = later.idle;
          emptied = later.emptied;
          arrived =
              later.arrived
              ∙ append_assoc (sources s.state) (message ∷ []) rest
              ∙ ap (λ queue. sources s.state ++ queue) (sym q);
          waits = later.waits;
        },
      )

  -- The bridge has sent the command that it owed, if it owed one.
  pub record Called (s t : System) : Type 0 where
    pub runs : Runs order s t
    pub bridge_rx : t.state.bridge_rx ≡ s.state.bridge_rx
    pub same : sources t.state ≡ sources s.state
    pub waits : t.phase ≡ s.phase
    pub idle : t.forwarded ≡ false

  pub call : (s : System) → (t : System) × Called s t
  unfolding notify send_command
  call s = elim (Bool-cases s.forwarded) [
    | inl b ↦ (
      record s { forwarded = false; cmd_rx = s.cmd_rx ++ source_ready ∷ [] },
      record {
        runs = subst (Runs order s) (rw (b, notify) refl) (then_step (stay s) (notifies s));
        bridge_rx = refl;
        same = refl;
        waits = refl;
        idle = refl;
      },
    )
    | inr b ↦ (s, record { runs = stay s; bridge_rx = refl; same = refl; waits = refl; idle = b })
  ]
