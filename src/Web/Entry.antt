-- ===== src/Web/Entry.antt =====
-- Who gets into the queue board (src/middleware/basic-auth.middleware.ts).
use text.Mathlib.Text.{starts_with, ◌==◌ as text_eq}
use dispatch_api.Prelude.{
  ◌&&◌, ◌∙◌, ℕ, List, not, ap, colon, first_part, after_first, Bool-cases, Option-cases, inl, inr,
  has_colon, joined, first_part-joined, after_first-joined, first_part_iff, text_eq_refl, ◌≡◌, true,
  false, some, String, truthy, if◌then◌else◌, arith,
}
use text.Mathlib.TextEquality.{eq_iff}
use dispatch_api.Web.Ascii.{
  codes, is_ascii, ascii_text, ascii_text-codes, ascii_text-is_ascii, first_part-is_ascii,
  after_first-is_ascii, joined-is_ascii,
}
use dispatch_api.Web.BasicAuth.{
  AdminConfig, admitted, refused, space, second_part, check_credentials, admit, is_text,
}

check_own :
    (config : AdminConfig) (username password : String)
    → truthy config.admin_username ≡ some username
    → truthy config.admin_password ≡ some password
    → has_colon username ≡ false
    → check_credentials config (joined username password)
      ≡ (if has_colon password then refused else admitted)
check_own config username password has_name has_password plain = ground (
  arith,
  first_part-joined username password plain,
  after_first-joined username password plain,
  text_eq_refl username,
  first_part_iff password,
)

-- Credentials that are not ASCII: what is compared with them is.
apart : (s t : String) → is_ascii s ≡ true → is_ascii t ≡ false → text_eq s t ≡ false
apart s t plain other = elim (Bool-cases (text_eq s t)) [
  | inl same ↦ absurd (ground (arith, ap is_ascii ((eq_iff s t).0 same)))
  | inr differs ↦ differs
]

second_part-apart :
    (s password : String)
    → is_ascii s ≡ true
    → is_ascii password ≡ false
    → is_text (second_part colon s) password ≡ false
second_part-apart s password plain other = elim (Option-cases (after_first colon s)) [
  | inl none_there ↦ ground (arith, none_there)
  | inr (t, rest) ↦ ground (
    arith,
    rest,
    apart (first_part colon t) password
        (first_part-is_ascii colon t (after_first-is_ascii colon s t plain rest)) other,
  )
]

refuses_others :
    (config : AdminConfig) (username password s : String)
    → truthy config.admin_username ≡ some username
    → truthy config.admin_password ≡ some password
    → is_ascii s ≡ true
    → is_ascii username && is_ascii password ≡ false
    → check_credentials config s ≡ refused
refuses_others config username password s has_name has_password plain other =
    elim (Bool-cases (is_ascii username)) [
      | inl named ↦ ground (arith, second_part-apart s password plain (ground arith))
      | inr unnamed ↦
          ground
            (arith, apart (first_part colon s) username (first_part-is_ascii colon s plain) unnamed)
    ]

-- With both configured, and no colon in the configured name, a request whose header holds the configured
-- name and password, as their bytes if they are ASCII and encoded in whatever way if they are not, is let in exactly if
-- both are ASCII and the password has no colon: others are never accepted, though they are the
-- configured ones.
pub own_credentials_iff :
    (decode : String → List ℕ) (config : AdminConfig) (username password header encoded : String)
    → truthy config.admin_username ≡ some username
    → truthy config.admin_password ≡ some password
    → has_colon username ≡ false
    → starts_with header "Basic " ≡ true
    → second_part space header ≡ some encoded
    → (is_ascii (joined username password) ≡ true
        → decode encoded ≡ codes (joined username password))
    → admit decode config (some header) ≡ (
        if is_ascii username && is_ascii password && not (has_colon password)
        then admitted
        else refused)
unfolding admit
own_credentials_iff decode config username password header encoded has_name has_password plain basic
      second holds =
    elim (Bool-cases (is_ascii username && is_ascii password)) [
      | inl both ↦
          let all = joined-is_ascii username password ∙ both in
          rw (basic, second, holds all, ascii_text-codes (joined username password) all)
            (check_own config username password has_name has_password plain ∙ ground arith)
      | inr other ↦
          rw (basic, second)
            (refuses_others config username password (ascii_text (decode encoded)) has_name
                has_password (ascii_text-is_ascii (decode encoded)) other
              ∙ ground arith)
    ]
