-- ===== src/Config.antt =====
-- packages/chassis/config: the loader of the environment, which collects every problem.
pub mod Parse
pub mod Loader
pub mod Reads
pub mod Shape
pub mod Wanted
pub mod Collects
pub mod Secrets
pub mod Chassis
