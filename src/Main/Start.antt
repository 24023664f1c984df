-- ===== src/Main/Start.antt =====
-- What main has made sure of when it mounts, and how arguments add up.
use pgfuse.Db.{Db}
use pgfuse.Session.{Session}
