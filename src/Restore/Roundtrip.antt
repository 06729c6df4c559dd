-- ===== src/Restore/Roundtrip.antt =====
-- The bytes that a shallow copy writes by src/lib/spdk_bs_dev_delta.c, and those that
-- src/lib/spdk_bs_dev_uring.c finds.
