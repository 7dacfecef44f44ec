-- ===== src/Examples.antt =====
-- Concrete workflows and tables, on which the theorems are used and the definitions are run. JSON
-- values are numbers here, or values over natural numbers where the code looks into them.
mod Graphs
mod Routes
mod Stores
mod Scheduling
mod Processing
mod Nodes
mod Operations
