-- ===== src/Poll/Translate.antt =====
-- tscb/ioready-poll.cc: the translations of event masks.
use libtscb.Base.{◌≡◌, true, false, arith}
use libtscb.Handlers.Chain.{Events, events_or, events_and}
use libtscb.Poll.{translate_os_to_tscb, translate_tscb_to_os}

-- Masks go to the system and come back: of a mask, the input and output bits are left.
pub translate_roundtrip :
    (mask : Events)
    → translate_os_to_tscb (translate_tscb_to_os mask)
      ≡ events_and mask (record { input = true; output = true; error = false; hangup = false })
unfolding translate_os_to_tscb translate_tscb_to_os events_or
translate_roundtrip mask = ground arith
