-- ===== src/Network.antt =====
-- The network manager's validation of a proposed configuration:
-- modules/network-manager/lib/network_validate.c, with the structs that it reads from
-- modules/network-manager/include/network_manager/network_manager.h and
-- modules/device-config-store/include/device_config_store/device_config_store.h.
pub mod Types
pub mod Check
pub mod Parts
pub mod Validate
pub mod Select
pub mod Healthy
mod Tests
