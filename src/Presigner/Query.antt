-- ===== src/Presigner/Query.antt =====
-- The query that the presigner writes, read by the verifier.
use sigv4_verify.Base.{
  ℕ, ◌+◌, ◌/◌, ◌%◌, ◌<◌, ◌≡◌, refl, sym, subst, true, false, some, List, [], ◌∷◌, ◌++◌, map, arith,
  Bytes, codes, bytes_eq, ok, All, IsByte,
}
use sigv4_verify.Hex.{is_unreserved, hex_upper, write_escaped_byte}
use sigv4_verify.Percent.{encode_byte}
use sigv4_verify.Text.{split, any}
use sigv4_verify.Text.Decimal.{to_string}
use sigv4_verify.Text.Utf8.{is_utf8, is_utf8_after, utf8_tail}
use sigv4_verify.Uri.{is_forbidden}
use sigv4_verify.Date.{ParsedAmzDate, parse_amz_date}
use sigv4_verify.Date.Parse.{two_digits, days_in_month-le}
use sigv4_verify.Date.Accepted.{parse_amz_date-IsPrinted}
use sigv4_verify.Query.{SigV4Query, known_name, is_known_query_name}
use sigv4_verify.Query.Params.{Decoded, decode_parts, note_all}
use sigv4_verify.Query.Laws.{cons_decode_parts}
use sigv4_verify.Query.Written.{written}
use sigv4_verify.Presigner.Defs.{PresignInput, raw_part, params_of, credential_text, join_raw_query}
use sigv4_verify.Presigner.Canonical.{uri_encode-encode}
use sigv4_verify.Presigner.Parts.{
  IsPlain, encode-IsPlain, IsPlain-IsByte, is_utf8-IsPlain, to_string-IsPlain, IsParam, encoded,
  IsExtra, extras, IsPart, IsExtra-IsPart, encoded-IsPart, join-clean, split-parts,
  decode_part-encoded,
}

digit_plain : (n : ℕ) → n < 10 → is_unreserved (b'0' + n) ≡ true
unfolding is_unreserved
digit_plain n h = ground arith

two_digits-IsPlain :
    (n : ℕ) (rest : Bytes)
    → n < 100
    → IsPlain rest
    → IsPlain ((b'0' + n / 10) ∷ (b'0' + n % 10) ∷ rest)
two_digits-IsPlain n rest h r =
    (digit_plain (n / 10) (omega arith), (digit_plain (n % 10) (omega arith), r))

-- A time stamp that is accepted needs no escapes.
pub timestamp-IsPlain :
    (b : Bytes) (parsed : ParsedAmzDate) → parse_amz_date b ≡ some parsed → IsPlain b
unfolding is_unreserved
timestamp-IsPlain b parsed h =
    let (p, _) = (parse_amz_date-IsPrinted b parsed).0 h in
    let day : p.day < 100 = omega (arith, p.day_bounded, days_in_month-le p.year p.month) in
    let seconds = two_digits p.second ++ (b'Z' ∷ []) in
    let minutes = two_digits p.minute ++ seconds in
    let clock = b'T' ∷ two_digits p.hour ++ minutes in
    let clock_plain : IsPlain clock = (
      refl,
      two_digits-IsPlain p.hour minutes (omega (arith, p.hour_bounded)) (
          two_digits-IsPlain p.minute seconds (omega (arith, p.minute_bounded))
            (two_digits-IsPlain p.second (b'Z' ∷ []) (omega (arith, p.second_bounded)) (refl, tt))),
    ) in
    let month_on =
      two_digits-IsPlain p.month (two_digits p.day ++ clock) (omega (arith, p.month_bounded))
        (two_digits-IsPlain p.day clock day clock_plain) in
    subst IsPlain (sym p.text_lem) (
      digit_plain (p.year / 1_000) (omega (arith, p.year_bounded)),
      (
        digit_plain (p.year / 100 % 10) (omega arith),
        (
          digit_plain (p.year / 10 % 10) (omega arith),
          (digit_plain (p.year % 10) (omega arith), month_on),
        ),
      ),
    )

-- The five parameters before the extra ones, decoded.
abbrev algorithm_param : Decoded
algorithm_param = (codes "X-Amz-Algorithm", codes "AWS4-HMAC-SHA256")

abbrev headers_param : Decoded
headers_param = (codes "X-Amz-SignedHeaders", codes "host")

abbrev credential_param : PresignInput → Decoded
credential_param input = (codes "X-Amz-Credential", credential_text input)

abbrev date_param : PresignInput → Decoded
date_param input = (codes "X-Amz-Date", input.sign_time.timestamp)

abbrev expires_param : PresignInput → Decoded
expires_param input = (codes "X-Amz-Expires", to_string input.expires.secs)

-- What the presigner is given.
pub record IsWritable (input : PresignInput) : Type 0 where
  pub credential_bytes : All IsByte (credential_text input)
  pub credential_utf8 : is_utf8 (credential_text input) ≡ true
  pub stamp_plain : IsPlain input.sign_time.timestamp
  pub extra_lem : All IsExtra input.extra

algorithm-IsParam : IsParam algorithm_param
unfolding bytes_eq is_known_query_name known_name is_utf8 is_utf8_after utf8_tail
algorithm-IsParam = record {
  name_bytes = omega arith;
  value_bytes = omega arith;
  named = refl;
  other = refl;
  text = refl;
}

headers-IsParam : IsParam headers_param
unfolding bytes_eq is_known_query_name known_name is_utf8 is_utf8_after utf8_tail
headers-IsParam = record {
  name_bytes = omega arith;
  value_bytes = omega arith;
  named = refl;
  other = refl;
  text = refl;
}

module _ (input : PresignInput) (w : IsWritable input) where
  credential-IsParam : IsParam (credential_param input)
  unfolding bytes_eq is_known_query_name known_name
  credential-IsParam = record {
    name_bytes = omega arith;
    value_bytes = w.credential_bytes;
    named = refl;
    other = refl;
    text = rw w.credential_utf8 refl;
  }

  date-IsParam : IsParam (date_param input)
  unfolding bytes_eq is_known_query_name known_name
  date-IsParam = record {
    name_bytes = omega arith;
    value_bytes = IsPlain-IsByte input.sign_time.timestamp w.stamp_plain;
    named = refl;
    other = refl;
    text = rw (is_utf8-IsPlain input.sign_time.timestamp w.stamp_plain) refl;
  }

  expires-IsParam : IsParam (expires_param input)
  unfolding bytes_eq is_known_query_name known_name
  expires-IsParam =
      let digits = to_string-IsPlain input.expires.secs in
      record {
        name_bytes = omega arith;
        value_bytes = IsPlain-IsByte (to_string input.expires.secs) digits;
        named = refl;
        other = refl;
        text = rw (is_utf8-IsPlain (to_string input.expires.secs) digits) refl;
      }

  -- The parts of the query.
  abbrev pub first_params : List Decoded
  first_params =
      algorithm_param
      ∷ credential_param input
      ∷ date_param input
      ∷ expires_param input
      ∷ headers_param
      ∷ []

  abbrev first_parts : List Bytes → List Bytes
  first_parts rest =
      written (encoded algorithm_param)
      ∷ written (encoded (credential_param input))
      ∷ written (encoded (date_param input))
      ∷ written (encoded (expires_param input))
      ∷ written (encoded headers_param)
      ∷ rest

  params_of-parts : map raw_part (params_of input) ≡ first_parts (map raw_part input.extra)
  unfolding encode_byte is_unreserved write_escaped_byte hex_upper
  params_of-parts =
      rw
        (
          uri_encode-encode (credential_text input),
          encode-IsPlain input.sign_time.timestamp w.stamp_plain,
          encode-IsPlain (to_string input.expires.secs) (to_string-IsPlain input.expires.secs),
        )
        refl

  parts-IsPart : All IsPart (map raw_part (params_of input))
  parts-IsPart = subst (All IsPart) (sym params_of-parts) (
    encoded-IsPart algorithm_param algorithm-IsParam,
    (
      encoded-IsPart (credential_param input) credential-IsParam,
      (
        encoded-IsPart (date_param input) date-IsParam,
        (
          encoded-IsPart (expires_param input) expires-IsParam,
          (encoded-IsPart headers_param headers-IsParam, IsExtra-IsPart input.extra w.extra_lem),
        ),
      ),
    ),
  )

  pub query-clean : any is_forbidden (join_raw_query (params_of input)) ≡ false
  query-clean = join-clean (map raw_part (params_of input)) parts-IsPart

  split-query : split b'&' (join_raw_query (params_of input)) ≡ map raw_part (params_of input)
  split-query = split-parts (map raw_part (params_of input)) (λ e. cc) parts-IsPart

  -- The parameters are read as they were meant.
  pub decode_parts-query :
      (ds : List Decoded) × (decode_parts (split b'&' (join_raw_query (params_of input)))
        ≡ ok (
            algorithm_param
            ∷ credential_param input
            ∷ date_param input
            ∷ expires_param input
            ∷ headers_param
            ∷ ds))
      × ((q : SigV4Query) → note_all ds q ≡ q)
  decode_parts-query =
      let (ds, hds, same) = extras input.extra w.extra_lem in
      (
        ds,
        rw (split-query) (
            subst (λ parts. decode_parts parts ≡ ok (first_params ++ ds)) (sym params_of-parts)
              (cons_decode_parts _ _ algorithm_param _
                (decode_part-encoded algorithm_param algorithm-IsParam)
                (cons_decode_parts _ _ (credential_param input) _
                  (decode_part-encoded (credential_param input) credential-IsParam)
                  (cons_decode_parts _ _ (date_param input) _
                    (decode_part-encoded (date_param input) date-IsParam)
                    (cons_decode_parts _ _ (expires_param input) _
                      (decode_part-encoded (expires_param input) expires-IsParam)
                      (cons_decode_parts _ _ headers_param ds
                        (decode_part-encoded headers_param headers-IsParam) hds)))))),
        same,
      )
