-- ===== src/Tests.antt =====
-- A cluster that runs, and the theorems at concrete inputs.
mod Cluster
mod Phases
mod Replies
mod Machines
mod Texts
mod Settling
mod Archives
mod ResourceServer
mod Provisioning
mod Policies
mod Starting
mod Attempts
mod Race
