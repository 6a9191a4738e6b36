-- ===== src/Types.antt =====
-- web/lib/types.ts: the shapes that the console reads from the API. `string | null` is `Option Str`,
-- a number is a natural number, and a union of string literals is a data type.
pub mod Account
pub mod Group
pub mod App
pub mod GroupView
