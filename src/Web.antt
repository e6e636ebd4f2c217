-- ===== src/Web.antt =====
-- The HTTP side of the apps: how net/http's ServeMux, which every app sets up, chooses a handler, and
-- what edge, helloworld and static register. A path is a request's path in which nothing is escaped.
pub mod Clean
pub mod Mux
pub mod Edge
