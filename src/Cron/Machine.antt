-- ===== src/Cron/Machine.antt =====
-- What the cron backend reads and writes: files, the user's crontab and the state files, and
-- `read_crontab` and `write_crontab` of adapters/cron.py. What was written before an exception
-- stays written, so an operation returns the machine next to its result.
use xcron.Base.{
  Bool, true, ◌&&◌, if◌then◌else◌, leb, nat_Eq, ℕ, ◌+◌, Option, none, some, [], ◌∷◌, map, Text,
  codes, ◌==◌, starts_with, is_empty, Dict, get, put, lstrip, rstrip, Result, ok, err,
}
use xcron.Contracts.{ProjectState}
use xcron.Planner.{NativeError, runtime_error, or_else}

-- `files` and `modes` by path, and what `save_project_state` wrote, by path.
pub record Machine : Type 0 where
  pub files : Dict Text
  pub modes : Dict ℕ
  pub states : Dict ProjectState
  pub installed : Option Text

pub record CommandResult : Type 0 where
  pub returncode : ℕ
  pub stdout : Text
  pub stderr : Text

-- The command `crontab`: `crontab -l`, and `crontab -`, which may fail.
pub record CrontabCommand : Type 0 where
  pub list : Machine → CommandResult
  pub install : Text → Machine → Result NativeError Machine

abbrev pub Run : Type 0 → Type 0
Run A = Machine → Machine × Result NativeError A

abbrev pub and_then :
    {A B : Type 0} → Machine × Result NativeError A → (A → Run B) → Machine × Result NativeError B
and_then (m, err e) f = (m, err e)
and_then (m, ok a) f = f a m

infixl 5 ◌>>=◌
abbrev pub ◌>>=◌ : {A B : Type 0} → Run A → (A → Run B) → Run B
(run >>= f) m = and_then (run m) f

infixl 5 ◌>>◌
abbrev pub ◌>>◌ : {B : Type 0} → Run (Unit {0}) → Run B → Run B
run >> next = run >>= λ _. next

abbrev pub return : {A : Type 0} → A → Run A
return a m = (m, ok a)

-- A step that only computes.
abbrev pub lift : {A : Type 0} → Result NativeError A → Run A
lift r m = (m, r)

abbrev pub change : (Machine → Machine) → Run (Unit {0})
change f m = (f m, ok tt)

-- `str.lower`, on the ASCII letters: the text that is looked for has no other.
abbrev lower : ℕ → ℕ
lower c = if leb b'A' c && leb c b'Z' then c + 32 else c

-- `part in s`
unfoldable pub contains_text : Text → Text → Bool
contains_text part [] = is_empty part
contains_text part (c ∷ s) =
    let rest = contains_text part s in if starts_with (c ∷ s) part then true else rest

-- The text of `crontab -l`, unless it fails for another reason than that there is none.
unfoldable pub listed : CommandResult → Result NativeError Text
listed r =
    if r.returncode == 0
    then ok r.stdout
    else if contains_text (codes "no crontab") (map lower r.stderr)
    then ok []
    else err
        (runtime_error (or_else (rstrip (lstrip r.stderr)) (codes "failed to read user crontab")))

abbrev pub file_or_empty : Option Text → Text
file_or_empty none = []
file_or_empty (some s) = s

module _ (command : CrontabCommand) where
  unfoldable pub read_crontab : Option Text → Run Text
  read_crontab none m = (m, listed (command.list m))
  read_crontab (some path) m = (m, ok (file_or_empty (get path m.files)))

  abbrev installed_by :
      Machine → Result NativeError Machine → Machine × Result NativeError (Unit {0})
  installed_by m (err e) = (m, err e)
  installed_by m (ok m') = (m', ok tt)

  unfoldable pub write_crontab : Text → Option Text → Run (Unit {0})
  write_crontab content none m = installed_by m (command.install content m)
  write_crontab content (some path) m = (record m { files = put path content m.files }, ok tt)
