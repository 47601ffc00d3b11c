-- ===== src/Amount.antt =====
-- The sats amount field (internal/tui/amount_input.go): a digits-only field with thousands
-- separators. `Format` has its parsing and printing, `Editor` its mutation path.
pub mod Format
pub mod Editor
