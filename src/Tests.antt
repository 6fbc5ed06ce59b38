-- ===== src/Tests.antt =====
-- Runs of the models at concrete inputs, and each theorem at an input that meets its hypotheses.
mod Jobs
mod Runner
mod InfraPolicy
mod Alerts
mod Health
mod Capability
mod Routing
mod Assignments
mod Migrations
mod Releases
mod Workers
mod Proxmox
mod InfraTools
mod Communication
mod DevTools
mod Intake
mod Context
mod Homelab
