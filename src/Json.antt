-- ===== src/Json.antt =====
-- The values of Go's `any` as JSON decoding makes them: nil, bool, int64, float64, string, []any and
-- map[string]any. A slice of values is `Items`, a map is `Fields`, with one entry for each key.
mod Maps
mod Slices
mod Defs
unfoldable pub use Defs.*
unfoldable pub use Maps.*
unfoldable pub use Slices.*
