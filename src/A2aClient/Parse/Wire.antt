-- ===== src/A2aClient/Parse/Wire.antt =====
-- daemon/src/A2AClient.cpp: what the parsers make of a task that is written as A2A 1.0 specifies.
use a2ad.Json.{Json}
use a2ad.TaskState.{TaskState}
