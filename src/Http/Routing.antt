-- ===== src/Http/Routing.antt =====
-- packages/http/src/router: the data of routes (http.router.interface.ts), the combination of routes
-- into groups (http.router.combiner.ts) and the flat routing built from them
-- (http.router.factory.ts). Effects and middlewares are functions that the factory only stores, so
-- their types are parameters; path-to-regexp is one too.
pub mod Model
pub mod Factory
pub mod Precedence
pub mod Declared
pub mod Provenance
pub mod Defaults
pub mod Groups
