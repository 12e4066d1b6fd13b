-- ===== src/Team/Fit.antt =====
-- Which `driver_config_json` `validate_driver_config` of
-- crates/agentmosaic-runtime/src/driver_factory.rs accepts.
use mathlib.Core.Option
use research_agent_system.Common.{Option, nat_eq}
use research_agent_system.Registry.DriverKind
use research_agent_system.Registry.DriverKind.{DriverKind}
