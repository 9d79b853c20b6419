-- ===== src/Planner/Reasons.antt =====
-- The texts of domain.py that say why a job changes, and the status texts.
use xcron.Base.{Text, codes, ◌++◌}

abbrev pub absent_reason : Text
absent_reason = codes "job not present in derived local state"

abbrev pub drift_reason : Text
drift_reason = codes "observed managed artifact hash differs from last applied hash"

unfoldable pub backend_reason : Text → Text → Text
backend_reason old new = codes "backend changed from " ++ old ++ codes " to " ++ new

abbrev pub definition_reason : Text
definition_reason = codes "normalized job definition hash changed"

abbrev pub enable_reason : Text
enable_reason = codes "job is disabled in deployed state but enabled in desired state"

abbrev pub disable_reason : Text
disable_reason = codes "job is enabled in deployed state but disabled in desired state"

abbrev pub noop_reason : Text
noop_reason = codes "desired definition and enabled state match deployed state"

abbrev pub extra_reason : Text
extra_reason = codes "job exists in derived local state but not in desired manifest"

abbrev pub disabled_text : Text
disabled_text = codes "job is disabled in desired state"

abbrev pub missing_text : Text
missing_text = codes "job is not installed in actual backend state"

abbrev pub ok_text : Text
ok_text = codes "desired definition and actual backend state are aligned"

abbrev pub extra_text : Text
extra_text = codes "managed backend artifact exists but no desired job matches it"
