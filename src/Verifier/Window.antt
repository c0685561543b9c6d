-- ===== src/Verifier/Window.antt =====
-- `Verifier::verify` on one request at several times.
use sigv4_verify.Base.{arith, ℕ, ◌≤◌, ◌≡◌, ◌↔◌, true, Bytes, ok}
use sigv4_verify.Base.Int.{ℤ, pos, ◌+ℤ◌, ◌≤ℤ◌, saturate}
use sigv4_verify.Crypto.{Crypto}
use sigv4_verify.Verifier.Types.{SystemTime, State}
use sigv4_verify.Verifier.Defs.{system_time_epoch_seconds, saturating_duration_i64, min_i64}
use sigv4_verify.Verifier.Handler.{Checked, read_scope, read_date, read_expiry, verify}
use sigv4_verify.Verifier.Limits.{IsTimely}
use sigv4_verify.Verifier.Accepts.{
  IsUri-read_uri, IsScoped-read_scope, IsDated-read_date, IsExpiring-read_expiry,
}
use sigv4_verify.Verifier.Safety.{IsChecked}
use sigv4_verify.Verifier.Allowed.{IsSound, verify-allowed, allowed-IsSigned}

saturate_mono : (a b d : ℤ) → a ≤ℤ b → saturate (a +ℤ d) ≤ℤ saturate (b +ℤ d)
unfolding saturate ◌+ℤ◌
saturate_mono a b d h = ground arith

≤ℤ_trans : (a b d : ℤ) → a ≤ℤ b → b ≤ℤ d → a ≤ℤ d
≤ℤ_trans a b d h k = omega (arith, h, k)

saturate_mono_both :
    (a b : ℤ) (m n : ℕ) → a ≤ℤ b → m ≤ n → saturate (a +ℤ pos m) ≤ℤ saturate (b +ℤ pos n)
unfolding saturate ◌+ℤ◌
saturate_mono_both a b m n h k = ground arith

module _ (crypto : Crypto) (state : State) (raw_method raw_uri raw_host : Bytes) where
  -- The time does not change what is read.
  IsChecked-unique :
      (now now' : SystemTime) (c c' : Checked)
      → IsChecked state raw_method raw_uri raw_host now c
      → IsChecked state raw_method raw_uri raw_host now' c'
      → (c.parsed_date ≡ c'.parsed_date) × (c.expires_seconds ≡ c'.expires_seconds)
  IsChecked-unique now now' c c' h h' =
      let a = IsUri-read_uri raw_uri c.uri h.uri_parts in
      let a' = IsUri-read_uri raw_uri c'.uri h'.uri_parts in
      let uri : c.uri ≡ c'.uri = cc in
      let b = IsScoped-read_scope crypto state c.uri c.scope h.scoped in
      let b' : read_scope crypto state c.uri ≡ ok c'.scope =
        rw uri (IsScoped-read_scope crypto state c'.uri c'.scope h'.scoped) in
      let scope : c.scope ≡ c'.scope = cc in
      let d = IsDated-read_date crypto c.uri c.scope c.amz_date c.parsed_date h.dated in
      let d' : read_date crypto c.uri c.scope ≡ ok (c'.amz_date, c'.parsed_date) =
        rw (uri, scope)
          (IsDated-read_date crypto c'.uri c'.scope c'.amz_date c'.parsed_date h'.dated) in
      let e =
        IsExpiring-read_expiry crypto c.uri c.scope c.expires_seconds c.signature_hex h.expiring in
      let e' : read_expiry crypto c.uri c.scope ≡ ok (c'.expires_seconds, c'.signature_hex) =
        rw (uri, scope)
          (IsExpiring-read_expiry crypto c'.uri c'.scope c'.expires_seconds c'.signature_hex
            h'.expiring) in
      (cc, cc)

  -- The request at another time.
  IsChecked-at :
      (now now' : SystemTime) (c : Checked)
      → IsChecked state raw_method raw_uri raw_host now c
      → IsTimely state now' c.parsed_date c.expires_seconds
      → IsChecked state raw_method raw_uri raw_host now' c
  IsChecked-at now now' c h timely = record {
    metadata = h.metadata;
    uri_parts = h.uri_parts;
    scoped = h.scoped;
    dated = h.dated;
    expiring = h.expiring;
    granted = h.granted;
    timely = timely;
  }

  -- If every credential's cache holds keys of its own secret only and verify allows a request at
  -- one time, with what is then checked of it, verify allows the request at any other time exactly
  -- if its time stamp is at most that time's seconds with the allowed clock skew added and these
  -- seconds are at most the time stamp with X-Amz-Expires added, both additions saturating.
  pub verify-window :
      (first now : SystemTime) (c : Checked)
      → IsSound crypto state
      → IsChecked state raw_method raw_uri raw_host first c
      → (verify crypto state raw_method raw_uri raw_host first).0.allowed ≡ true
      → ((verify crypto state raw_method raw_uri raw_host now).0.allowed ≡ true) ↔ (
          (c.parsed_date.epoch_seconds
            ≤ℤ saturate (
                system_time_epoch_seconds now
                +ℤ saturating_duration_i64 state.settings.allowed_clock_skew))
          × (system_time_epoch_seconds now
              ≤ℤ saturate (c.parsed_date.epoch_seconds +ℤ pos c.expires_seconds)))
  verify-window first now c sound h allowed =
      let short : min_i64 c.expires_seconds ≡ c.expires_seconds =
        ground (arith, h.expiring.bounded) in
      let signed =
        allowed-IsSigned crypto state raw_method raw_uri raw_host first c sound h allowed in
      let decided = verify-allowed crypto state raw_method raw_uri raw_host now sound in
      (
        (λ again.
            let (c', h', _) = decided.0 again in
            let (date, expires) = IsChecked-unique first now c c' h h' in
            (rw date h'.timely.not_future, rw (← short, date, expires) h'.timely.not_expired)),
        (λ timely. decided.1 (
          c,
          IsChecked-at first now c h
              (record { not_future = timely.0; not_expired = rw short timely.1 }),
          signed,
        )),
      )

  -- If every credential's cache holds keys of its own secret only and verify allows one request at
  -- two times, the second time in seconds is at most the first with the allowed clock skew and
  -- seven days added, both additions saturating.
  pub verify-lifetime :
      (first last : SystemTime)
      → IsSound crypto state
      → (verify crypto state raw_method raw_uri raw_host first).0.allowed ≡ true
      → (verify crypto state raw_method raw_uri raw_host last).0.allowed ≡ true
      → system_time_epoch_seconds last
        ≤ℤ saturate (
            saturate (
              system_time_epoch_seconds first
              +ℤ saturating_duration_i64 state.settings.allowed_clock_skew)
            +ℤ pos 604_800)
  verify-lifetime first last sound allowed allowed' =
      let (c, h, signed) =
        (verify-allowed crypto state raw_method raw_uri raw_host first sound).0 allowed in
      let (c', h', signed') =
        (verify-allowed crypto state raw_method raw_uri raw_host last sound).0 allowed' in
      let (date, expires) = IsChecked-unique first last c c' h h' in
      let start = saturate (
        system_time_epoch_seconds first
        +ℤ saturating_duration_i64 state.settings.allowed_clock_skew) in
      let short : min_i64 c'.expires_seconds ≤ 604_800 = ground (arith, h'.expiring.bounded) in
      let from : c'.parsed_date.epoch_seconds ≤ℤ start = rw (← date) h.timely.not_future in
      ≤ℤ_trans (system_time_epoch_seconds last)
        (saturate (c'.parsed_date.epoch_seconds +ℤ pos (min_i64 c'.expires_seconds)))
        (saturate (start +ℤ pos 604_800)) h'.timely.not_expired
        (saturate_mono_both c'.parsed_date.epoch_seconds start (min_i64 c'.expires_seconds) 604_800
          from short)
