-- ===== src/Runtime.antt =====
-- What the services run on: programs over the database, the clock, the event bus and the tools, and
-- the world in which they run.
pub mod Program
pub mod World
pub mod Monitor
pub mod Always
pub mod Steps
pub mod Within
