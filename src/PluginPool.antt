-- ===== src/PluginPool.antt =====
-- Package pluginpool (native/pluginpool): protocol plugins as supervised child processes.
pub mod LineWriter
pub mod Paths
pub mod Options
pub mod Envelope
pub mod World
pub mod Guards
pub mod Host
pub mod Service
pub mod Toy
pub mod Supervision
pub mod StopRace
pub mod Protect
pub mod Children
pub mod Stopping
