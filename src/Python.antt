-- ===== src/Python.antt =====
-- What the modelled code takes from Python itself: exceptions, generators, dictionaries and sets.
pub mod Exceptions
pub mod Generators
pub mod Dict
pub mod Sorting
pub mod Text
pub mod Extremes
