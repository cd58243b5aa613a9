-- ===== src/Tests.antt =====
-- Concrete inputs for the theorems of the library, and runs of the modelled code on them.
mod Dates
mod Forecasts
mod Values
mod Names
mod Grids
mod Extractions
mod Catalogues
mod Saves
mod Searches
mod Files
mod Messages
mod Sockets
mod Pools
mod Processes
mod Transfers
pub mod Inputs
mod Sorting
mod Outputs
mod Replies
mod Accepts
mod Integrities
