-- ===== src/Subjects.antt =====
-- crates/iot-proto-core/src/subjects.rs: the builders of NATS subjects.
pub mod Shape
mod Samples
use iot_athome.Prelude.{
  ℕ, List, [], ◌∷◌, ◌++◌, Bool, not, ◌||◌, ◌&&◌, Text, codes, all, leb, ◌==◌, if◌then◌else◌, Result,
  ok, err, ◌>>=◌, ◌>>◌,
}

pub data SubjectError : Type 0 where
  empty : SubjectError
  bad_char : Text → SubjectError

-- The closure of `validate_token`; a byte of a non-ASCII character is no token character either.
unfoldable pub token_char : ℕ → Bool
token_char c = leb b'a' c && leb c b'z' || leb b'0' c && leb c b'9' || c == b'_' || c == b'-'

unfoldable pub validate_token : Text → Result SubjectError (Unit {0})
validate_token [] = err empty
validate_token (c ∷ t) = if not (all token_char (c ∷ t)) then err (bad_char (c ∷ t)) else ok tt

abbrev dot : Text → Text
dot s = b'.' ∷ s

unfoldable pub device_state : Text → Text → Text → Result SubjectError Text
device_state plugin device entity = do
  validate_token plugin
  validate_token device
  validate_token entity
  ok (codes "device." ++ (plugin ++ dot (device ++ dot (entity ++ codes ".state"))))

unfoldable pub device_event : Text → Text → Text → Result SubjectError Text
device_event plugin device entity = do
  validate_token plugin
  validate_token device
  validate_token entity
  ok (codes "device." ++ (plugin ++ dot (device ++ dot (entity ++ codes ".event"))))

unfoldable pub device_avail : Text → Text → Result SubjectError Text
device_avail plugin device = do
  validate_token plugin
  validate_token device
  ok (codes "device." ++ (plugin ++ dot (device ++ codes ".avail")))

unfoldable pub command : Text → Text → Text → Result SubjectError Text
command plugin device entity = do
  validate_token plugin
  validate_token device
  validate_token entity
  ok (codes "cmd." ++ (plugin ++ dot (device ++ dot entity)))

unfoldable pub automation_fired : Text → Result SubjectError Text
automation_fired rule = do validate_token rule; ok (codes "automation." ++ (rule ++ codes ".fired"))

unfoldable pub ml_prediction : Text → Result SubjectError Text
ml_prediction model = do validate_token model; ok (codes "ml." ++ (model ++ codes ".prediction"))

unfoldable pub audit : Text → Result SubjectError Text
audit kind = do validate_token kind; ok (codes "audit." ++ kind)
