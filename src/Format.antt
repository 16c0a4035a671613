-- ===== src/Format.antt =====
-- What the texts that the extension makes are: numbers, probe descriptions, trimmed records.
pub mod Decimal
pub mod Probe
pub mod Trim
