-- ===== src/EnergyMeter.antt =====
-- The energy meter: the frames of the HLW8032, modules/energy-meter/src/hlw8032.c.
pub mod Hlw8032
mod Tests
