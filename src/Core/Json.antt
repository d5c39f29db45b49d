-- ===== src/Core/Json.antt =====
-- include/usbsentinel/json.h and src/core/json.c: the streaming JSON writer and the reader.
pub mod Decimal
pub mod Digits
pub mod Writer
pub mod Calls
pub mod Growth
pub mod Room
pub mod Safety
pub mod Document
pub mod Writes
pub mod Slots
pub mod Placing
pub mod Pieces
pub mod Filling
pub mod Emit
pub mod Strings
pub mod Reader
pub mod Leaves
pub mod Meaning
pub mod Steps
pub mod Values
pub mod RoundTrip
pub mod Fuel
pub mod Progress
pub mod Totality
mod Tests
