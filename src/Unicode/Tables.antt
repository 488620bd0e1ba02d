-- ===== src/Unicode/Tables.antt =====
-- irccd/unicode.c: the tables of the character classes, as they were generated. A row of two numbers
-- is a range; a third number, or the second of a single character, is 2 ^ 20 and the difference.
pub mod Space
pub mod Digit
pub mod Alpha
pub mod Upper
pub mod Lower
pub mod Title
pub mod ToUpper
pub mod ToLower
pub mod ToTitle
