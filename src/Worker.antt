-- ===== src/Worker.antt =====
-- backend/worker-service: the retries of its jobs and the sweep for overdue invoices.
pub mod Retry
pub mod Overdue
