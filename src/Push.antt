-- ===== src/Push.antt =====
-- src/mms/mod.rs: the WAP push that a binary SMS carries.
use modem2sip.Common.{
  ℕ, zero, suc, ◌+◌, ◌-◌, ◌%◌, Bool, true, false, ◌&&◌, ◌||◌, List, [], ◌∷◌, Option, none, some,
  length, drop, if◌then◌else◌, ltb, leb, ◌==◌,
}
use modem2sip.Text.{Bytes, Text, codes}
use modem2sip.Text.Ops.{contains, eq_ignore_ascii_case}
use modem2sip.Wsp.Env.{Env}
use modem2sip.Wsp.Reader.{Reader, new, slice, u8, uintvar}
use modem2sip.Wsp.Values.{ContentType, content_type}
pub mod Frame

-- `matches!(data[1], 0x06 | 0x07)` behind the check of the length.
unfoldable pub is_wap_push : Bytes → Bool
is_wap_push (a ∷ t ∷ c ∷ d ∷ rest) = t == 6 || t == 7
is_wap_push _ = false

pub record WapPush : Type 0 where
  pub content_type : Text
  pub body : Bytes

pub data PushError : Type 0 where
  not_a_push truncated_push bad_headers_length headers_overrun no_content_type : PushError

pub data PushResult : Type 0 where
  pushed : WapPush → PushResult
  push_error : PushError → PushResult

module _ (env : Env) where
  -- `data` from the end of the headers on is the body.
  abbrev pub push_of : Bytes → ℕ → Option ContentType × Reader → PushResult
  push_of data_ headers_end (none, hr) = push_error PushError.no_content_type
  push_of data_ headers_end (some (ct, params), hr) =
      pushed (record { content_type = ct; body = drop headers_end data_ })

  -- `checked_add` fails past `usize::MAX`.
  abbrev pub headers_fit : Bytes → ℕ → ℕ → Bool
  headers_fit data_ headers_start headers_len =
      leb (headers_start + headers_len) env.usize_max
      && leb (headers_start + headers_len) (length data_)

  -- `as usize` keeps the low bits.
  abbrev pub after_length : Bytes → Option ℕ × Reader → PushResult
  after_length data_ (none, r) = push_error PushError.bad_headers_length
  after_length data_ (some n, r) =
      let headers_len = n % (env.usize_max + 1) in
      if headers_fit data_ r.pos headers_len
      then push_of data_ (r.pos + headers_len)
          (content_type env (new (slice data_ r.pos (r.pos + headers_len))))
      else push_error PushError.headers_overrun

  -- `_pdu_type` is read and not used.
  abbrev pub after_transaction : Bytes → Option ℕ × Reader → PushResult
  after_transaction data_ (none, r) = push_error PushError.truncated_push
  after_transaction data_ (some tid, r) = after_length data_ (uintvar (u8 r).1)

  unfoldable pub parse_wap_push : Bytes → PushResult
  parse_wap_push data_ =
      if is_wap_push data_
      then after_transaction data_ (u8 (new data_))
      else push_error PushError.not_a_push

unfoldable pub is_mms_push : WapPush → Bool
is_mms_push push =
    eq_ignore_ascii_case push.content_type (codes "application/vnd.wap.mms-message")
    || contains push.content_type (codes "mms-message")
