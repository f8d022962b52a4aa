-- ===== src/Util.antt =====
-- util.hpp and util.cpp.
use fcitx5_scribe.Common.{String, Bool, true, false, if◌then◌else◌, ◌==◌, length}
use fcitx5_scribe.Proto.{Bytes}

-- `boost::uuids::to_string` is the parameter: it belongs to another project.
unfoldable pub session_id_to_log_string : (Bytes → String) → Bytes → String
session_id_to_log_string uuid_to_string session_id = uuid_to_string session_id

-- The result, and the output buffer afterwards.
unfoldable pub copy_exact_bytes : Bytes → Bytes → Bool × Bytes
copy_exact_bytes input output =
    if length input == length output then (true, input) else (false, output)
