-- ===== src/Platform.antt =====
-- What every service of the platform stands on: the database rows (Platform/Schema), the code that
-- is not part of the repository (Platform/Environment), and a request as a state-and-exception
-- computation over the database (Platform/Method).
pub mod Schema
pub mod Environment
pub mod Method
unfoldable pub use Schema.*
unfoldable pub use Environment.*
unfoldable pub use Method.*
