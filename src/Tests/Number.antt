-- ===== src/Tests/Number.antt =====
-- Numbers at concrete inputs.
use modem2sip.Common.{◌≡◌, refl, some, true, false, []}
use modem2sip.Text.{codes}
use modem2sip.Number.{to_national}
use modem2sip.Number.Local.{to_national-international}

to_national-international_example :
    to_national (codes "821012") (some (codes "+82")) (codes "0") ≡ codes "01012"
to_national-international_example =
    to_national-international true false b'8' b'1' (codes "2") (codes "012") (codes "0")
      (refl, (refl, tt)) (refl, (refl, (refl, (refl, tt))))

-- A short code that starts with the country code.
short_code : to_national (codes "106") (some (codes "1")) [] ≡ codes "06"
short_code =
    to_national-international false false b'1' b'0' [] (codes "6") [] (refl, tt) (refl, (refl, tt))
