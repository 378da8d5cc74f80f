-- ===== src/Tests/Push.antt =====
-- A push with an MMS message at a concrete input.
use modem2sip.Common.{◌≡◌, refl, arith, inl, [], ◌∷◌, some}
use modem2sip.Text.{codes}
use modem2sip.Wsp.Reader.{new, advance, peek}
use modem2sip.Wsp.Tables.{content_type_name, find_name, content_types}
use modem2sip.Wsp.Values.{content_type}
use modem2sip.Wsp.Writer.{write_uintvar, uintvar_groups, mark_groups}
use modem2sip.Push.{pushed, parse_wap_push}
use modem2sip.Push.Frame.{frame, parse_wap_push-frame}
use modem2sip.Tests.Wsp.{env64}

mms_type :
    content_type env64 (new (0xBE ∷ []))
    ≡ (some (codes "application/vnd.wap.mms-message", []), advance 1 (new (0xBE ∷ [])))
unfolding content_type peek content_type_name find_name content_types
mms_type = refl

parse_wap_push-frame_example :
    parse_wap_push env64 (frame 1 6 (0xBE ∷ []) (0x8C ∷ 0x82 ∷ []))
    ≡ pushed
        (record { content_type = codes "application/vnd.wap.mms-message"; body = 0x8C ∷ 0x82 ∷ [] })
unfolding write_uintvar uintvar_groups mark_groups
parse_wap_push-frame_example =
    parse_wap_push-frame env64 1 6 (0xBE ∷ []) (0x8C ∷ 0x82 ∷ [])
      (codes "application/vnd.wap.mms-message") [] (advance 1 (new (0xBE ∷ []))) (inl refl)
      (omega arith) (omega arith) (omega arith) mms_type
