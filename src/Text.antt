-- ===== src/Text.antt =====
-- The parts of the C++ standard library that read and write texts: decimal output by `<<` and
-- `std::to_string`, `std::stoi`, `std::stol`, and `std::getline` on a string stream.
pub mod Decimal
pub mod Stream
pub mod Input
