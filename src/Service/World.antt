-- ===== src/Service/World.antt =====
-- What the service runs in: the machine, and the outcomes that the event sink was sent. Whether
-- the sink raises makes no difference, since `_record` catches it.
use xcron.Base.{
  ℕ, Option, none, some, List, [], ◌∷◌, ◌++◌, Text, sort, get, remove, Result, ok, err,
}
use xcron.Contracts.{ProjectState}
use xcron.Planner.{NativeError, id_leb}
use xcron.Layout.{RuntimeLayout}
use xcron.Cron.Machine.{Machine, Run}

pub record World : Type 0 where
  pub machine : Machine
  pub sent : List (Text × ℕ)

abbrev pub Step : Type 0 → Type 0
Step A = World → World × Result NativeError A

abbrev pub then_step :
    {A B : Type 0} → World × Result NativeError A → (A → Step B) → World × Result NativeError B
then_step (w, err e) f = (w, err e)
then_step (w, ok a) f = f a w

infixl 5 ◌>>=◌
abbrev pub ◌>>=◌ : {A B : Type 0} → Step A → (A → Step B) → Step B
(step >>= f) w = then_step (step w) f

infixl 5 ◌>>◌
abbrev pub ◌>>◌ : {B : Type 0} → Step (Unit {0}) → Step B → Step B
step >> next = step >>= λ _. next

abbrev pub return : {A : Type 0} → A → Step A
return a w = (w, ok a)

abbrev pub lift : {A : Type 0} → Result NativeError A → Step A
lift r w = (w, r)

-- What is read of the machine.
abbrev pub reading : {A : Type 0} → (Machine → A) → Step A
reading f w = (w, ok (f w.machine))

abbrev pub with_machine : {A : Type 0} → World → Machine × A → World × A
with_machine w (m, a) = (record w { machine = m }, a)

-- An operation of a backend.
abbrev pub running : {A : Type 0} → Run A → Step A
running run w = with_machine w (run w.machine)

-- `_record`
unfoldable pub send : Text → ℕ → Step (Unit {0})
send counter amount w = (record w { sent = w.sent ++ (counter, amount) ∷ [] }, ok tt)

module _ (layout : RuntimeLayout) (state_root : Option Text) where
  -- A state that was saved comes back with its jobs in the order of their ids.
  unfoldable pub load_project_state : Text → Text → Machine → ProjectState
  load_project_state project_id backend m =
      elim (get (layout.project_state_path project_id state_root) m.states) [
        | none ↦ record {
          project_id = project_id;
          backend = backend;
          manifest_hash = none;
          jobs = [];
          updated_at = none;
        }
        | some state ↦ record state { jobs = sort id_leb state.jobs }
      ]

  unfoldable pub delete_project_state : Text → Step (Unit {0})
  delete_project_state project_id w = (
    record w {
      machine = record w.machine {
        states = remove (layout.project_state_path project_id state_root) w.machine.states;
      };
    },
    ok tt,
  )
