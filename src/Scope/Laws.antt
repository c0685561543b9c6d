-- ===== src/Scope/Laws.antt =====
-- Parsing a credential scope is the inverse of joining its parts.
use sigv4_verify.Base.{
  ℕ, ◌+◌, ◌≡◌, ◌≢◌, refl, sym, ◌∙◌, ap, true, false, List, [], ◌∷◌, arith, Bytes, length, drop,
  drop-append, All, ok,
}
use sigv4_verify.Hex.{is_ascii_digit}
use sigv4_verify.Text.{split}
use sigv4_verify.Text.Split.{Lacks, join, join-split, split-Lacks, split-Lacks_one, split-append}
use sigv4_verify.Scope.Defs.{
  CredentialScope, all_digits, is_empty, scope_of_parts, parse_credential_scope,
}

abbrev pub IsDigit : ℕ → Type 0
IsDigit c = is_ascii_digit c ≡ true

abbrev slash : ℕ
slash = b'/'

-- The parts, joined by slashes.
abbrev pub parts_of : CredentialScope → List Bytes
parts_of s = s.access_key ∷ s.date ∷ s.region ∷ s.service ∷ s.terminal ∷ []

-- What a parsed scope promises.
pub record IsScope (s : CredentialScope) : Type 0 where
  pub access_key_present : s.access_key ≢ []
  pub region_present : s.region ≢ []
  pub service_present : s.service ≢ []
  pub terminal_present : s.terminal ≢ []
  pub date_length : length s.date ≡ 8
  pub date_digits : All IsDigit s.date
  pub no_slash : All (Lacks b'/') (parts_of s)
  pub scope_lem : s.scope ≡ join b'/' (s.date ∷ s.region ∷ s.service ∷ s.terminal ∷ [])

digits_of_all_digits : (d : Bytes) → all_digits d ≡ true → All IsDigit d
unfolding all_digits
digits_of_all_digits [] h = tt
digits_of_all_digits (c ∷ d) h = ground (arith, digits_of_all_digits d)

all_digits_of_digits : (d : Bytes) → All IsDigit d → all_digits d ≡ true
unfolding all_digits
all_digits_of_digits [] h = refl
all_digits_of_digits (c ∷ d) (hc, hd) = rw (hc, all_digits_of_digits d hd) refl

is_empty-false : (xs : Bytes) → xs ≢ [] → is_empty xs ≡ false
is_empty-false [] h = absurd (h refl)
is_empty-false (x ∷ xs) h = refl

is_empty-ne-nil : (xs : Bytes) → is_empty xs ≡ false → xs ≢ []
is_empty-ne-nil [] h = cc
is_empty-ne-nil (x ∷ xs) h = cc

-- The checks of an accepting call.
scope_of_parts_checked :
    (value a d r se t : Bytes) {s : CredentialScope}
    → scope_of_parts value (a ∷ d ∷ r ∷ se ∷ t ∷ []) ≡ ok s
    → (is_empty a ≡ false)
      × (is_empty r ≡ false)
      × (is_empty se ≡ false)
      × (is_empty t ≡ false)
      × (length d ≡ 8)
      × (all_digits d ≡ true)
      × (s ≡ record {
        access_key = a;
        date = d;
        region = r;
        service = se;
        terminal = t;
        scope = drop (length a + 1) value;
      })
unfolding scope_of_parts
scope_of_parts_checked value a d r se t h = ground arith

-- Parsing the five parts of a well-formed scope joined by slashes gives the scope back.
pub parse_credential_scope-join :
    (s : CredentialScope) → IsScope s → parse_credential_scope (join b'/' (parts_of s)) ≡ ok s
unfolding parse_credential_scope scope_of_parts
parse_credential_scope-join s v =
    let (a, (d, (r, (se, (t, _))))) = v.no_slash in
    rw
      (
        split-append slash s.access_key
            (join slash (s.date ∷ s.region ∷ s.service ∷ s.terminal ∷ [])) a,
        split-append slash s.date (join slash (s.region ∷ s.service ∷ s.terminal ∷ [])) d,
        split-append slash s.region (join slash (s.service ∷ s.terminal ∷ [])) r,
        split-append slash s.service s.terminal se,
        split-Lacks_one slash s.terminal t,
      )
      (ground (
        arith,
        v.scope_lem,
        v.date_length,
        is_empty-false s.access_key v.access_key_present,
        is_empty-false s.region v.region_present,
        is_empty-false s.service v.service_present,
        is_empty-false s.terminal v.terminal_present,
        all_digits_of_digits s.date v.date_digits,
        drop-append s.access_key slash
            (join slash (s.date ∷ s.region ∷ s.service ∷ s.terminal ∷ [])),
      ))

scope_of_parts_five :
    (value a d r se t : Bytes) {s : CredentialScope}
    → split slash value ≡ a ∷ d ∷ r ∷ se ∷ t ∷ []
    → scope_of_parts value (a ∷ d ∷ r ∷ se ∷ t ∷ []) ≡ ok s
    → IsScope s × (join slash (parts_of s) ≡ value)
scope_of_parts_five value a d r se t {s} e h =
    let (ea, er, es, et, ld, dd, eq) = scope_of_parts_checked value a d r se t h in
    let spelled : join slash (a ∷ d ∷ r ∷ se ∷ t ∷ []) ≡ value =
      sym (ap (join slash) e) ∙ join-split slash value in
    let lacks : All (Lacks slash) (a ∷ d ∷ r ∷ se ∷ t ∷ []) = rw e at (split-Lacks slash value) in
    let rest : drop (length a + 1) value ≡ join slash (d ∷ r ∷ se ∷ t ∷ []) =
      rw (← spelled) (drop-append a slash (join slash (d ∷ r ∷ se ∷ t ∷ []))) in
    rw eq (
      record {
        access_key_present = is_empty-ne-nil a ea;
        region_present = is_empty-ne-nil r er;
        service_present = is_empty-ne-nil se es;
        terminal_present = is_empty-ne-nil t et;
        date_length = ld;
        date_digits = digits_of_all_digits d dd;
        no_slash = lacks;
        scope_lem = rest;
      },
      spelled,
    )

scope_of_parts_lem :
    (value : Bytes) (ps : List Bytes) {s : CredentialScope}
    → split slash value ≡ ps
    → scope_of_parts value ps ≡ ok s
    → IsScope s × (join slash (parts_of s) ≡ value)
scope_of_parts_lem value (a ∷ d ∷ r ∷ se ∷ t ∷ []) e h = scope_of_parts_five value a d r se t e h
scope_of_parts_lem value ps e h = unfold scope_of_parts in ground arith

-- An accepted credential scope is the join of its five parts by slashes; the parts have no slash,
-- the date has eight digits, the others are not empty, and the scope field is the join of the last
-- four.
pub parse_credential_scope-IsScope :
    (value : Bytes) {s : CredentialScope}
    → parse_credential_scope value ≡ ok s
    → IsScope s × (join b'/' (parts_of s) ≡ value)
unfolding parse_credential_scope
parse_credential_scope-IsScope value h = scope_of_parts_lem value (split slash value) refl h
