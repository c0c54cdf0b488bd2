-- ===== src/Hotplug.antt =====
-- internal/controller/hotplug.go: attaching the restore volume to a machine and detaching it.
pub mod Names
pub mod Source
pub mod Steps
pub mod Naming
pub mod Plug
pub mod Attach
pub mod Detach
