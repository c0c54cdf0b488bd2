-- ===== src/Controller.antt =====
-- The controller of VirtualMachineFileRestore objects.
pub mod State
pub mod Graph
pub mod Both
pub mod Lifted
pub mod Persistence
pub mod Bounds
pub mod Runs
pub mod Stored
pub mod Replies
pub mod Progress
pub mod Pace
pub mod Mount
pub mod Panics
pub mod Deletion
pub mod Access
pub mod Cleaning
pub mod Steps
pub mod Init
pub mod Attachment
pub mod Restoring
pub mod Finish
pub mod Reconcile
