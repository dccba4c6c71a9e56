-- ===== src/App.antt =====
-- The application: errors (apperr), what a response writer does (timeout.go), the table of routes
-- (app.go, route_options.go), the dispatch of a request (app.go), route groups (group.go) and
-- paths of named routes (path.go).
pub mod Errors
pub mod Response
pub mod Table
pub mod Serve
pub mod Groups
pub mod Paths
mod Tests
