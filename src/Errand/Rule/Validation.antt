-- ===== src/Errand/Rule/Validation.antt =====
-- The conditions under which the input of a task is accepted.
use backend_demo.Prelude.{ℕ, pos, leb_ℤ, true, false, ◌≡◌, ◌↔◌, ◌≤◌, ◌<◌, ◌⊎◌, length, arith}
use backend_demo.Platform.Text.{Text, codes, text_eq, trim}
use backend_demo.Errand.Task.{TaskInput, ContactInput}
use backend_demo.Errand.Rule.{valid, validate_task_input, validate_task_update_input}

-- A text of 1 to `n` code points, once it is trimmed.
abbrev pub Fits : ℕ → Text → Type 0
Fits n s = (1 ≤ length (trim s)) × (length (trim s) ≤ n)

pub record ContentOk (input : TaskInput) (now : ℕ) : Type 0 where
  pub title : Fits 200 input.title
  pub description : Fits 20000 input.description
  pub pickup : Fits 500 input.pickup_location
  pub dropoff : Fits 500 input.dropoff_location
  pub paid : leb_ℤ input.reward_cents (pos 0) ≡ false
  pub ahead : now < input.deadline

pub record ContactOk (input : ContactInput) : Type 0 where
  pub kind :
      (text_eq (trim input.kind) (codes "phone") ≡ true)
      ⊎ (text_eq (trim input.kind) (codes "wechat") ≡ true)
      ⊎ (text_eq (trim input.kind) (codes "qq") ≡ true)
  pub filled : Fits 128 input.value

-- A new task is valid exactly when its content is and it has a contact that is; a change of a task
-- is valid exactly when its content is and the contact, if it has one.
pub validate_task_input_iff :
    (input : TaskInput) (now : ℕ)
    → ((validate_task_input input now ≡ valid)
        ↔ (ContentOk input now × (input.contact.provided ≡ true) × ContactOk input.contact))
      × ((validate_task_update_input input now ≡ valid)
          ↔ (ContentOk input now × ((input.contact.provided ≡ false) ⊎ ContactOk input.contact)))
unfolding validate_task_input validate_task_update_input
validate_task_input_iff input now =
    ((λ h. ground arith, λ h. ground arith), (λ h. ground arith, λ h. ground arith))
