-- ===== src/Topology.antt =====
-- Subnets and speaker groups, custom_components/cast/topology.py.
pub mod Address
pub mod Types
pub mod Networks
pub mod Groups
pub mod Spans
pub mod Placement
mod Examples
