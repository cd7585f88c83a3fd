-- ===== src/Exec/Uuid.antt =====
-- randomUUID of node:crypto.
use docklane.Prelude.{String}
use docklane.Exec.{ok, M, Env, tick}

unfoldable pub random_uuid : Env → M String
random_uuid env w = (ok (env.uuid w.calls), tick env w)
