-- ===== src/Carpool/Rule/Validation.antt =====
-- The conditions under which a trip's input is accepted.
use backend_demo.Prelude.{ℕ, pos, pos_part, true, false, ◌≡◌, ◌↔◌, ◌≤◌, ◌<◌, ◌⊎◌, length, arith}
use backend_demo.Platform.Text.{Text, codes, text_eq, is_empty, trim, byte_len}
use backend_demo.Carpool.Trip.{TripInput}
use backend_demo.Carpool.Rule.{valid, validate_trip_input}

-- A text that is not blank and has at most `n` code points.
abbrev pub Fits : ℕ → Text → Type 0
Fits n s = (is_empty s ≡ false) × (length s ≤ n)

pub record ContentOk (input : TripInput) (now : ℕ) : Type 0 where
  pub title : Fits 200 (trim input.title)
  pub origin : Fits 500 (trim input.origin)
  pub destination : Fits 500 (trim input.destination)
  pub seats : input.total_seats ≡ pos (pos_part input.total_seats)
  pub some_seat : 1 ≤ pos_part input.total_seats
  pub few_seats : pos_part input.total_seats ≤ 20
  pub ahead : now < input.departure_at

pub record ContactOk (input : TripInput) : Type 0 where
  pub kind :
      (text_eq (trim input.contact_type) (codes "phone") ≡ true)
      ⊎ (text_eq (trim input.contact_type) (codes "wechat") ≡ true)
      ⊎ (text_eq (trim input.contact_type) (codes "qq") ≡ true)
  pub filled : is_empty (trim input.contact) ≡ false
  pub short : byte_len (trim input.contact) ≤ 200

-- A new trip is valid exactly when its content and its contact are.
pub validate_trip_input_iff :
    (input : TripInput) (now : ℕ)
    → (validate_trip_input input now ≡ valid) ↔ (ContentOk input now × ContactOk input)
unfolding validate_trip_input
validate_trip_input_iff input now = (λ h. ground arith, λ h. ground arith)
