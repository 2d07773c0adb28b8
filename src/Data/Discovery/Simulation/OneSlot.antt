-- ===== src/Data/Discovery/Simulation/OneSlot.antt =====
-- data/examples/discovery_analysis/main.rs: when the simulation ends.
