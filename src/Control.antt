-- ===== src/Control.antt =====
-- daemon/src/ControlPlane.cpp and daemon/include/kitty_a2a/ControlPlane.hpp: the governed request
-- path of the daemon.
pub mod Records
pub mod Exit
pub mod Names
pub mod Audit
pub mod Lease
pub mod Approval
pub mod Agents
pub mod Channel
pub mod Registry
pub mod Checks
pub mod Begin
pub mod Finish
pub mod Listing
pub mod Handle
pub mod History
pub mod Tests
