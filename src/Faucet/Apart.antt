-- ===== src/Faucet/Apart.antt =====
-- The faucet never spends an output twice while its reservation lasts, however its requests are
-- ordered.
