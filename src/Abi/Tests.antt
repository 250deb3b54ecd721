-- ===== src/Abi/Tests.antt =====
-- The names of the error numbers, at one of them.
