-- ===== src/Examples.antt =====
-- Runs of the modelled code at concrete inputs.
mod Roles
mod Requests
mod Sessions
mod Keys
mod Members
mod SignIn
mod Draining
mod Http
mod Probes
mod Clocks
mod Settings
mod Serving
mod Callback
mod Authed
mod Booting
mod Projects
mod Peers
