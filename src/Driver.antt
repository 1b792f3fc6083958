-- ===== src/Driver.antt =====
-- src/main.cpp behind its command line: running the benchmarks, checking the arrays, reporting.
pub mod RunAll
pub mod Gold
pub mod Agreement
pub mod Check
pub mod Output
pub mod Summary
pub mod Program
pub mod Main
