-- ===== src/Daemon/Dispatch.antt =====
-- daemon/src/main.cpp: `dispatch`, the operation of a request, for the operations that are modelled.
use a2ad.Common.{String, true, false, ◌==◌, string_eq, if◌then◌else◌, [], ◌∷◌, ◌++◌, bytes}
use a2ad.Json.{Json, boolean, Try, done, ◌>>=◌, value_text, record_of, utf8}
use a2ad.Tasks.{Manager}
use a2ad.Tasks.Create.{Fresh}
use a2ad.Daemon.{Host}
use a2ad.Daemon.Replies.{success, json_text}
use a2ad.Daemon.Submit.{submit, list, status, respond_op, cancel_op, materialize_op}
use a2ad.Daemon.Push.{remote_list, push_create, push_get, push_list, push_delete, extended_card}

-- An operation that leaves the tasks as they are.
abbrev pub same : Manager → Try Json → Try (Json × Manager)
same m r = r >>= λ j. done (j, m)

unfoldable pub pong : Json
pong = success (("pong", boolean true) ∷ [])

module _ {Endpoint : Type 0} (host : Host Endpoint) (f : Fresh) where
  unfoldable pub unknown_op : String → Json
  unknown_op op =
      record_of
        (("ok", boolean false) ∷ ("error", json_text host (bytes "unknown op: " ++ utf8 op)) ∷ [])

  -- The operations on what the agents keep.
  unfoldable pub run_remote : String → Json → Try Json
  run_remote op req =
      if op == "remote_list"
      then remote_list host req
      else if op == "push.create"
      then push_create host req
      else if op == "push.get"
      then push_get host req
      else if op == "push.list"
      then push_list host req
      else if op == "push.delete"
      then push_delete host req
      else if op == "agent.extended_card"
      then extended_card host req
      else if op == "ping"
      then done pong
      else done (unknown_op op)

  -- The operations of the daemon but `stream_submit`, `subscribe`, `agents` and `discover`.
  unfoldable pub run : String → Json → Manager → Try (Json × Manager)
  run op req m =
      if op == "submit"
      then submit host f req m
      else if op == "list"
      then same m (list host f req m)
      else if op == "status"
      then status host f req m
      else if op == "respond"
      then respond_op host f req m
      else if op == "cancel"
      then cancel_op host f req m
      else if op == "artifact.materialize"
      then same m (materialize_op host f req m)
      else same m (run_remote op req)

  unfoldable pub dispatch : Json → Manager → Try (Json × Manager)
  dispatch req m = do op ← value_text "op" "" req; run op req m
