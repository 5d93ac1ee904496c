-- ===== src/Audit/Privacy.antt =====
-- No email reaches the log in clear: with pseudonymization on, a record depends on the email of its
-- attributes only through its hash.
use atrium_core.Base.{
  ◌≡◌, refl, true, Bool, List, [], ◌∷◌, ◌++◌, map, Text, txt, ◌==◌, ==_refl, ap, sym, ◌∙◌,
}
use mathlib.Core.List.{map-append}
use atrium_core.Crypto.{Crypto}
use atrium_core.Slog.{Level, Attr, log_attrs, value_string}
use atrium_core.Http.{Request, Out, emit}
use atrium_core.Audit.{
  hash_email, replace_attr, new_logger, log, request_attrs, email_key, string_attr,
}

module _ (crypto : Crypto) where
  email_is_not_level : (email_key == txt "level") ≡ Bool.false
  unfolding txt ◌==◌
  email_is_not_level = refl

  replace_attr-email :
      (salt email : Text)
      → replace_attr crypto salt true [] (string_attr email_key email)
        ≡ string_attr email_key (hash_email crypto salt email)
  unfolding replace_attr value_string
  replace_attr-email salt email = rw (email_is_not_level, ==_refl email_key)

  hashed_alike :
      (salt e₁ e₂ : Text) (before after : List Attr)
      → hash_email crypto salt e₁ ≡ hash_email crypto salt e₂
      → map (replace_attr crypto salt true []) (before ++ string_attr email_key e₁ ∷ after)
        ≡ map (replace_attr crypto salt true []) (before ++ string_attr email_key e₂ ∷ after)
  hashed_alike salt e₁ e₂ [] after h =
      rw (replace_attr-email salt e₁, replace_attr-email salt e₂, h)
  hashed_alike salt e₁ e₂ (a ∷ before) after h =
      ap (λ t. replace_attr crypto salt true [] a ∷ t) (hashed_alike salt e₁ e₂ before after h)

  logged_alike :
      (floor at : Level) (salt event : Text) (xs ys : List Attr)
      → map (replace_attr crypto salt true []) xs ≡ map (replace_attr crypto salt true []) ys
      → log_attrs (new_logger crypto floor salt true) at event xs
        ≡ log_attrs (new_logger crypto floor salt true) at event ys
  unfolding log_attrs new_logger
  logged_alike floor at salt event xs ys h = rw h

  -- Two records that differ in the email alone, of addresses with one hash, are written alike.
  pub log-email :
      (floor at : Level) (salt event : Text) (r : Request) (e₁ e₂ : Text) (before after : List Attr)
      (w : Out)
      → hash_email crypto salt e₁ ≡ hash_email crypto salt e₂
      → let logger = new_logger crypto floor salt true in
        log logger r at event (before ++ string_attr email_key e₁ ∷ after) w
        ≡ log logger r at event (before ++ string_attr email_key e₂ ∷ after) w
  unfolding log emit
  log-email floor at salt event r e₁ e₂ before after w h =
      ap (λ lines. record w { log = w.log ++ lines })
        (logged_alike floor at salt event _ _ (
          map-append _ _ _
          ∙ ap (λ t. map (replace_attr crypto salt true []) (request_attrs r) ++ t)
              (hashed_alike salt e₁ e₂ before after h)
          ∙ sym (map-append _ _ _)))
