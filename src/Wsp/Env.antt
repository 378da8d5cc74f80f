-- ===== src/Wsp/Env.antt =====
-- What the WSP code takes from outside the repository: the width of `usize` on the target and the
-- character sets of the `encoding_rs` crate.
use modem2sip.Common.{ℕ, ◌≡◌, ◌≢◌, All, Option, ◌∷◌, []}
use modem2sip.Text.{Bytes, Text, IsChar, as_bytes, codes}
use modem2sip.Wsp.Tables.{Charset, utf_8}

pub record Env : Type 0 where
  -- `usize::MAX`: 2^32 - 1 or 2^64 - 1.
  pub usize_max : ℕ
  -- `Encoding::decode`, the text alone.
  pub decode : Charset → Bytes → Text
  -- `Encoding::name`.
  pub name : Charset → Text
  -- `Encoding::for_label`.
  pub for_label : Bytes → Option Charset

-- No byte order mark stands in front: `decode` removes one.
abbrev pub NoBom : Text → Type 0
NoBom [] = Unit {0}
NoBom (c ∷ s) = c ≢ 0xFEFF

-- The documented behaviour of `encoding_rs` that round trips rest on.
pub record Utf8Laws (env : Env) : Type 0 where
  pub utf_8_name : env.name utf_8 ≡ codes "UTF-8"
  pub decode_utf_8 : (s : Text) → All IsChar s → NoBom s → env.decode utf_8 (as_bytes s) ≡ s
