-- ===== src/Daemon.antt =====
-- daemon/src/main.cpp: what the daemon has beside the task manager, the parameters of its requests.
use a2ad.Common.{String, Option, Text}
use a2ad.Json.{Library}
use a2ad.Tasks.Remote.{Client}
use a2ad.Tasks.Outbound.{Calls}
use a2ad.Tasks.Materialize.{Disk, Services}
pub mod Redact
pub mod Route
pub mod Replies
pub mod Submit
pub mod Push
pub mod Dispatch
pub mod Routed
pub mod Tests

-- What the daemon has beside the task manager: the projects of the configuration, and the files.
pub record Host (Endpoint : Type 0) : Type 0 where
  pub lib : Library
  pub default_agent : Text → Option String
  pub read_file : Text → Option Text
  pub client : Client Endpoint
  pub calls : Calls Endpoint
  pub services : Services
  pub disk : Disk
