-- ===== src/Control/History.antt =====
-- daemon/src/ControlPlane.cpp over time: the transactions of the control plane in the order in which
-- the mutex and SQLite let them through. A dispatch is under way between its `begin` and its `finish`;
-- other requests, events of the task manager and restarts of the daemon come in between.
use a2ad.Common.{ℕ, String, List, [], ◌∷◌, ◌++◌}
use a2ad.Control.Records.{Request, Outcome, Store}
use a2ad.Control.Audit.{Platform, Env}
use a2ad.Control.Finish.{finish, restart}
use a2ad.Control.Handle.{Input, Decision, reply, forward, dispatch, admit, event}
pub mod Once
pub mod Chained

pub data Action : Type 0 where
  requested : Env → Input → Action
  settled : Env → String → Outcome → Action
  logged : Env → String → Action
  restarted : Env → Action

-- The ids under which a decision calls the dispatcher for a governed mutation.
unfoldable pub dispatched : Decision → List String
dispatched (reply r) = []
dispatched (forward req) = []
dispatched (dispatch id req) = id ∷ []

module _ (p : Platform) where
  unfoldable pub step : Action → Store → Store
  step (requested env input) s = (admit p env input s).1
  step (settled env id r) s = finish p env id r s
  step (logged env text) s = event p env text s
  step (restarted env) s = restart p env s

  unfoldable pub step_dispatches : Action → Store → List String
  step_dispatches (requested env input) s = dispatched (admit p env input s).0
  step_dispatches _ s = []

  unfoldable pub run : List Action → Store → Store
  unfolding step
  run [] s = s
  run (a ∷ acts) s = run acts (step a s)

  -- The ids that a history dispatches, in order.
  unfoldable pub dispatches : List Action → Store → List String
  unfolding step step_dispatches
  dispatches [] s = []
  dispatches (a ∷ acts) s = step_dispatches a s ++ dispatches acts (step a s)
