-- ===== src/Web.antt =====
-- web-dashboard/frontend/src: the dashboard. A page is modelled by its state, its handlers and
-- what it shows; the elements that most pages return stand in a child module View.
pub mod Browser
pub mod Html
pub mod Markup
pub mod Fetch
pub mod Routes
pub mod Login
pub mod NewAgent
pub mod LiveAgents
pub mod Overview
pub mod CostGraph
pub mod Attestation
pub mod Simulation
pub mod InFlight
pub mod Guarded
pub mod Tables
pub mod RoundTrips
pub mod Forms
pub mod Session
pub mod Figures
mod Tests
mod PageTests
