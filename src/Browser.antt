-- ===== src/Browser.antt =====
-- What the components use of the browser and of React: timers, and the tree that is rendered.
pub mod Timers
pub mod View
