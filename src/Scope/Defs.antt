-- ===== src/Scope/Defs.antt =====
-- `CredentialScope` and `parse_credential_scope`.
use sigv4_verify.Base.{
  ◌+◌, Bool, true, false, not, ◌&&◌, ◌||◌, List, [], ◌∷◌, Bytes, ◌==◌, if◌then◌else◌, length, drop,
  ok, err,
}
use sigv4_verify.Hex.{is_ascii_digit}
use sigv4_verify.Percent.{UriResult, uri_error}
use sigv4_verify.Text.{split}

pub record CredentialScope : Type 0 where
  pub access_key : Bytes
  pub date : Bytes
  pub region : Bytes
  pub service : Bytes
  pub terminal : Bytes
  pub scope : Bytes

-- `bytes().all(|b| b.is_ascii_digit())`.
unfoldable pub all_digits : Bytes → Bool
all_digits [] = true
all_digits (c ∷ r) = is_ascii_digit c && all_digits r

abbrev pub is_empty : Bytes → Bool
is_empty [] = true
is_empty (c ∷ r) = false

-- `next()` five times, and a sixth that finds no more.
unfoldable pub scope_of_parts : Bytes → List Bytes → UriResult CredentialScope
unfolding all_digits
scope_of_parts value (access_key ∷ date ∷ region ∷ service ∷ terminal ∷ []) =
    if is_empty access_key
      || is_empty region
      || is_empty service
      || is_empty terminal
      || not (length date == 8)
      || not (all_digits date)
    then err uri_error
    else ok (record {
      access_key = access_key;
      date = date;
      region = region;
      service = service;
      terminal = terminal;
      scope = drop (length access_key + 1) value;
    })
scope_of_parts value parts = err uri_error

unfoldable pub parse_credential_scope : Bytes → UriResult CredentialScope
unfolding scope_of_parts
parse_credential_scope value = scope_of_parts value (split b'/' value)
