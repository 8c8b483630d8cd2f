-- ===== src/Subjects/Samples.antt =====
-- The subject builders at concrete inputs.
use iot_athome.Prelude.{[], ◌∷◌, ◌≡◌, refl, codes, all, split, ok, err}
use iot_athome.Subjects.{bad_char, validate_token, token_char}
use iot_athome.Subjects
use iot_athome.Subjects.Shape.{Subject, build, build-split, build-injective}

abbrev living_temp : Subject
living_temp = Subject.device_state (codes "zigbee") (codes "01hxxabc") (codes "temp")

builds : build living_temp ≡ ok (codes "device.zigbee.01hxxabc.temp.state")
unfolding Subjects.device_state validate_token token_char all
builds = refl

rejects_dots : Subjects.audit (codes "a.b") ≡ err (bad_char (codes "a.b"))
unfolding Subjects.audit validate_token token_char all
rejects_dots = refl

build-split_run :
    split b'.' (codes "device.zigbee.01hxxabc.temp.state")
    ≡ codes "device" ∷ codes "zigbee" ∷ codes "01hxxabc" ∷ codes "temp" ∷ codes "state" ∷ []
build-split_run = build-split living_temp _ builds

build-injective_run : living_temp ≡ living_temp
build-injective_run = build-injective living_temp living_temp _ builds builds
