-- ===== src/Tests.antt =====
-- Concrete inputs: the theorems applied to them, and runs of the definitions.
mod Samples
mod Sorting
mod AuthzTests
mod StoreTests
mod HubTests
mod LimitTests
mod ApiTests
mod WorkerTests
mod AuthTests
mod ManageTests
mod RequestTests
