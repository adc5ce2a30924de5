-- ===== src/Node/Listen/Return.antt =====
-- How the thread of a subscriber returns from wherever it stands.
use stros.CString.{CString}
