-- ===== src/Control/Agents.antt =====
-- daemon/src/ControlPlane.cpp: `health`, and `agent.health`, `agent.quarantine`, `agent.release`.
use a2ad.Common.{String, true, false, Option, none, some, lookup, insert}
use a2ad.Control.Records.{AgentOp, Request, Health, Store, Reply, agent_changed}
use a2ad.Control.Exit.{Exit, next, ◌>>=◌, value, required}
use a2ad.Control.Audit.{Platform, Env, append}

-- `health`, on the record that was read.
abbrev pub health_or : String → Option Health → Health
health_or agent none = record { agent = agent; failures = 0; quarantined = false; reason = none }
health_or agent (some h) = h

unfoldable pub health : String → Store → Health
health agent s = health_or agent (lookup agent s.healths)

-- The member `failures` after `agent.quarantine` or `agent.release`.
abbrev pub owner_sets : AgentOp → String → Health → Health
owner_sets AgentOp.health reason h = h
owner_sets AgentOp.quarantine reason h = record h { quarantined = true; reason = some reason }
owner_sets AgentOp.release reason h = record h {
  failures = 0;
  quarantined = false;
  reason = some reason;
}

module _ (p : Platform) where
  unfoldable pub set_health :
      Env → AgentOp → String → Health → Request → Store → Exit (Reply × Store)
  set_health env AgentOp.health agent h req s = next (Reply.health h, s)
  set_health env op agent h req s = do
    reason ← value req.reason "owner decision"
    let h' = owner_sets op reason h
    next (
      Reply.health h',
      append p env (agent_changed op agent reason)
          (record s { healths = insert agent h' s.healths }),
    )

  unfoldable pub agent_op : Env → AgentOp → Request → Store → Exit (Reply × Store)
  agent_op env op req s = do
    agent ← required req.agent
    set_health env op agent (health agent s) req s
