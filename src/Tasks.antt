-- ===== src/Tasks.antt =====
-- Asynchronous tasks: the record store (mm_gateway/tasks/store.py), the idempotent create of the
-- resource routes (mm_gateway/server/routes), and the background monitor (tasks/supervisor.py).
pub mod Store
pub mod Create
pub mod Supervisor
