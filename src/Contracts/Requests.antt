-- ===== src/Contracts/Requests.antt =====
-- packages/xcron-contracts/src/xcron/contracts: the requests of requests.py, and the options, the
-- settings and the context of an invocation of domain.py.
use xcron.Base.{Bool, Option, Text}

pub record ProjectRequest : Type 0 where
  pub project_path : Option Text
  pub schedule_name : Option Text

-- The fields of the base class are `project`.
pub record SchedulerRequest : Type 0 where
  pub project : ProjectRequest
  pub backend : Option Text
  pub state_root : Option Text
  pub platform : Option Text
  pub launch_agents_dir : Option Text
  pub launchctl_domain : Option Text
  pub crontab_path : Option Text
  pub manage_launchctl : Bool
  pub manage_crontab : Bool

pub record JobLookupRequest : Type 0 where
  pub project : ProjectRequest
  pub job_identifier : Text

pub record Settings : Type 0 where
  pub state_root : Option Text
  pub launch_agents_dir : Option Text
  pub launchctl_domain : Option Text
  pub crontab_path : Option Text
  pub manage_launchctl : Bool
  pub manage_crontab : Bool

pub record XcronOptions : Type 0 where
  pub project_path : Option Text
  pub schedule_name : Option Text
  pub backend : Option Text
  pub state_root : Option Text
  pub platform : Option Text
  pub launch_agents_dir : Option Text
  pub launchctl_domain : Option Text
  pub crontab_path : Option Text
  pub manage_launchctl : Bool
  pub manage_crontab : Bool

-- Of the workspace its root; the event sink is a part of the world that the service runs in.
pub record InvocationContext : Type 0 where
  pub options : XcronOptions
  pub workspace : Option Text
  pub settings : Settings
