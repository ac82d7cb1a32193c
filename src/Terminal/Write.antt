-- ===== src/Terminal/Write.antt =====
-- `terminal_write`: the cursor stays on the screen, and nothing else is written.
