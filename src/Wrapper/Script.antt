-- ===== src/Wrapper/Script.antt =====
-- The parts of the wrapper script (wrapper.py of the scheduler) that no job has a part in.
use xcron.Base.{List, [], ◌∷◌, Text, codes}

-- The shell function that counts ticks.
unfoldable pub metric_function : List Text
metric_function =
    codes "xcron_metric() {"
    ∷ codes "  metric_counter=$1"
    ∷ codes "  if command -v python3 >/dev/null 2>&1; then"
    ∷ codes "    XCRON_METRIC_COUNTER=\"$metric_counter\" python3 - <<'PY' 2>/dev/null || true"
    ∷ codes "import datetime, json, os, pathlib"
    ∷ codes "counter = os.environ['XCRON_METRIC_COUNTER']"
    ∷ codes "configured = os.environ.get('XCRON_HOME')"
    ∷ codes
        "root = pathlib.Path(configured).expanduser() if configured else pathlib.Path.home() / '.xcron'"
    ∷ codes "path = root / 'metrics' / 'metrics.json'"
    ∷ codes "now = datetime.datetime.now(datetime.timezone.utc).replace(microsecond=0).isoformat()"
    ∷ codes "try:"
    ∷ codes "    payload = json.loads(path.read_text(encoding='utf-8')) if path.exists() else {}"
    ∷ codes "except Exception:"
    ∷ codes "    payload = {}"
    ∷ codes "payload.setdefault('version', 1)"
    ∷ codes "payload.setdefault('created_at', now)"
    ∷ codes "payload['updated_at'] = now"
    ∷ codes "counters = payload.setdefault('counters', {})"
    ∷ codes "counters[counter] = int(counters.get(counter, 0)) + 1"
    ∷ codes "path.parent.mkdir(parents=True, exist_ok=True)"
    ∷ codes
        "path.write_text(json.dumps(payload, indent=2, sort_keys=True) + '\\n', encoding='utf-8')"
    ∷ codes "PY"
    ∷ codes "  fi"
    ∷ codes "}"
    ∷ []

-- The shell function that appends to the event log.
unfoldable pub event_function : List Text
event_function =
    codes "xcron_event() {"
    ∷ codes "  event_name=$1"
    ∷ codes "  if command -v python3 >/dev/null 2>&1; then"
    ∷ codes "    XCRON_EVENT=\"$event_name\" \\"
    ∷ codes "    XCRON_EVENT_LOG_PATH=\"$EVENT_LOG_PATH\" \\"
    ∷ codes "    XCRON_RUN_ID=\"$RUN_ID\" \\"
    ∷ codes "    XCRON_QUALIFIED_ID=\"$QUALIFIED_ID\" \\"
    ∷ codes "    XCRON_DESIRED_HASH=\"$DESIRED_HASH\" \\"
    ∷ codes "    XCRON_PID=\"$$\" \\"
    ∷ codes "    XCRON_COMMAND=\"$JOB_COMMAND\" \\"
    ∷ codes "    XCRON_CWD=\"$JOB_WORKING_DIR\" \\"
    ∷ codes "    XCRON_STDOUT_LOG_PATH=\"$STDOUT_LOG_PATH\" \\"
    ∷ codes "    XCRON_STDERR_LOG_PATH=\"$STDERR_LOG_PATH\" \\"
    ∷ codes "    python3 - <<'PY' 2>/dev/null || true"
    ∷ codes "import datetime, json, os, pathlib"
    ∷ codes "def optional_int(name):"
    ∷ codes "    value = os.environ.get(name)"
    ∷ codes "    return None if value in (None, '') else int(value)"
    ∷ codes "payload = {"
    ∷ codes
        "    'timestamp': datetime.datetime.now(datetime.timezone.utc).replace(microsecond=0).isoformat().replace('+00:00', 'Z'),"
    ∷ codes "    'event': os.environ['XCRON_EVENT'],"
    ∷ codes "    'run_id': os.environ['XCRON_RUN_ID'],"
    ∷ codes "    'qualified_id': os.environ['XCRON_QUALIFIED_ID'],"
    ∷ codes "    'desired_hash': os.environ['XCRON_DESIRED_HASH'],"
    ∷ codes "    'pid': optional_int('XCRON_PID'),"
    ∷ codes "    'command': os.environ['XCRON_COMMAND'],"
    ∷ codes "    'cwd': os.environ['XCRON_CWD'],"
    ∷ codes "    'stdout_log_path': os.environ['XCRON_STDOUT_LOG_PATH'],"
    ∷ codes "    'stderr_log_path': os.environ['XCRON_STDERR_LOG_PATH'],"
    ∷ codes "    'event_log_path': os.environ['XCRON_EVENT_LOG_PATH'],"
    ∷ codes "    'stream': os.environ.get('XCRON_STREAM'),"
    ∷ codes "    'sequence': optional_int('XCRON_SEQUENCE'),"
    ∷ codes "    'line': os.environ.get('XCRON_LINE'),"
    ∷ codes "    'exit_code': optional_int('XCRON_EXIT_CODE'),"
    ∷ codes "    'duration_seconds': optional_int('XCRON_DURATION_SECONDS'),"
    ∷ codes "}"
    ∷ codes "payload = {key: value for key, value in payload.items() if value is not None}"
    ∷ codes "path = pathlib.Path(os.environ['XCRON_EVENT_LOG_PATH'])"
    ∷ codes "path.parent.mkdir(parents=True, exist_ok=True)"
    ∷ codes "with path.open('a', encoding='utf-8') as handle:"
    ∷ codes "    handle.write(json.dumps(payload, sort_keys=True, separators=(',', ':')) + '\\n')"
    ∷ codes "PY"
    ∷ codes "  fi"
    ∷ codes "}"
    ∷ []

-- The shell function that replays the output of the command.
unfoldable pub replay_function : List Text
replay_function =
    codes "xcron_replay_stream() {"
    ∷ codes "  stream=$1"
    ∷ codes "  path=$2"
    ∷ codes "  sequence=0"
    ∷ codes "  while IFS= read -r line || [ -n \"$line\" ]; do"
    ∷ codes "    if [ \"$stream\" = stdout ]; then"
    ∷ codes "      printf \"%s\\n\" \"$line\""
    ∷ codes "    else"
    ∷ codes "      printf \"%s\\n\" \"$line\" >&2"
    ∷ codes "    fi"
    ∷ codes
        "    XCRON_STREAM=\"$stream\" XCRON_SEQUENCE=\"$sequence\" XCRON_LINE=\"$line\" xcron_event child_output"
    ∷ codes "    sequence=$((sequence + 1))"
    ∷ codes "  done < \"$path\""
    ∷ codes "}"
    ∷ []
