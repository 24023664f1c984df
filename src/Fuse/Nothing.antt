-- ===== src/Fuse/Nothing.antt =====
-- pgfuse.c, lines 461-465, 504-514, 692-697 and 724-736: the hooks that have nothing to do.
use pgfuse.Base.{ℕ, List}
use pgfuse.Session.{M, pure}

unfoldable pub pgfuse_opendir : List ℕ → M (Unit {0})
pgfuse_opendir path = pure tt

unfoldable pub pgfuse_releasedir : List ℕ → M (Unit {0})
pgfuse_releasedir path = pure tt

unfoldable pub pgfuse_fsyncdir : List ℕ → M (Unit {0})
pgfuse_fsyncdir path = pure tt

unfoldable pub pgfuse_flush : List ℕ → M (Unit {0})
pgfuse_flush path = pure tt

unfoldable pub pgfuse_release : List ℕ → M (Unit {0})
pgfuse_release path = pure tt
