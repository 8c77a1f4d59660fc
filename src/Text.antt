-- ===== src/Text.antt =====
-- What the sources use of the C++ library on texts: hexadecimal and decimal output, `sscanf` with
-- "%02x", and `std::string::find`. A char is its code.
pub mod Hex
pub mod Decimal
pub mod Search
pub mod After
