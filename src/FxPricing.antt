-- ===== src/FxPricing.antt =====
-- examples/fx_pricing: a program that prices currency trades with the library. Its HTTP routes, its
-- Redis connection and its environment are not modelled; the arithmetic of floating point numbers
-- and the identifiers that are drawn at random are parameters.
pub mod Types
pub mod Nodes
pub mod Diagram
pub mod Merging
pub mod Api
pub mod Trades
