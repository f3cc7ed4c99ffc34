-- ===== src/Sensors.antt =====
-- The sensors of a device and of a group, custom_components/cast/sensor.py: Values is what they show,
-- Setup which of them a discovery creates, Once how often.
pub mod Values
pub mod Setup
pub mod Once
mod Examples
